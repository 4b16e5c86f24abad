-- ===== src/Auth/Runs.antt =====
-- The runs by name of auth/auth-maintenance.ts, `launch` and what ends a run.
use one_marketplace.Base.{
  ℕ, ◌≤◌, ◌≡◌, refl, ap, ◌∙◌, sym, subst, Bool, true, not, none, some, Option, inl, inr, List, [],
  ◌∷◌, ◌++◌, arith, Bool-cases,
}
use one_marketplace.Base.Text.{Text, text_eq, text_eq_iff}
use one_marketplace.Base.Table.{select, count, count-append}
use one_marketplace.Auth.Maintenance.{Runs, current_run, launched, launch, finish_run, stop}

pub data Step : Type 0 where
  launches : Text → ℕ → Step
  settles : Text → Step
  stops : Step

unfoldable pub act : Step → Runs → Runs
act (launches name next) runs = (launch name next runs).1
act (settles name) runs = finish_run name runs
act stops runs = stop runs

unfoldable pub act_all : List Step → Runs → Runs
act_all [] runs = runs
act_all (step ∷ steps) runs = act_all steps (act step runs)

abbrev pub is_named : Text → Text × ℕ → Bool
is_named name r = text_eq r.0 name

-- No name runs twice at a time.
pub record IsExclusive (runs : Runs) : Type 0 where
  pub once : (name : Text) → count (is_named name) runs.running ≤ 1

current_run-none :
    (name : Text) (running : List (Text × ℕ))
    → current_run name running ≡ none
    → count (is_named name) running ≡ 0
unfolding current_run count
current_run-none name [] h = refl
current_run-none name ((other, run) ∷ rest) h = ground (arith, current_run-none name rest)

count-select-le : {A : Type 0} (p q : A → Bool) (xs : List A) → count p (select q xs) ≤ count p xs
unfolding count select
count-select-le p q [] = omega arith
count-select-le p q (x ∷ xs) = ground (arith, count-select-le p q xs)

same_name : (a b c : Text) → text_eq a b ≡ true → text_eq a c ≡ true → b ≡ c
same_name a b c h k = sym ((text_eq_iff a b).0 h) ∙ (text_eq_iff a c).0 k

started-once :
    (name other : Text) (next : ℕ) (running : List (Text × ℕ))
    → count (is_named name) running ≡ 0
    → count (is_named other) running ≤ 1
    → count (is_named other) (running ++ (name, next) ∷ []) ≤ 1
unfolding count
started-once name other next running absent once = elim (Bool-cases (text_eq name other)) [
  | inr differs ↦
      ground (arith, differs, once, count-append (is_named other) running ((name, next) ∷ []))
  | inl same ↦
      let absent' =
        subst (λ n. count (is_named n) running ≡ 0) ((text_eq_iff name other).0 same) absent in
      ground (arith, absent', same, count-append (is_named other) running ((name, next) ∷ []))
]

launched-stopped :
    (name : Text) (next : ℕ) (runs : Runs) (current : Option ℕ)
    → runs.stopped ≡ true
    → (launched name next runs current).1 ≡ runs
unfolding launched
launched-stopped name next runs (some run) s = refl
launched-stopped name next runs none s = ground (arith, s)

launched-IsExclusive :
    (name : Text) (next : ℕ) (runs : Runs) (current : Option ℕ)
    → current_run name runs.running ≡ current
    → IsExclusive runs
    → IsExclusive (launched name next runs current).1
unfolding launched
launched-IsExclusive name next runs (some run) found e = e
launched-IsExclusive name next runs none absent e = elim (Bool-cases runs.stopped) [
  | inl ended ↦ subst IsExclusive (sym (launched-stopped name next runs none ended)) e
  | inr open_yet ↦ rw open_yet (record {
    once = λ n.
        started-once name n next runs.running (current_run-none name runs.running absent)
          (e.once n);
  })
]

act-IsExclusive : (step : Step) (runs : Runs) → IsExclusive runs → IsExclusive (act step runs)
unfolding act launch finish_run stop
act-IsExclusive (settles name) runs e = record {
  once = λ n.
      omega
        (arith, e.once n, count-select-le (is_named n) (λ r. not (text_eq r.0 name)) runs.running);
}
act-IsExclusive stops runs e = record { once = e.once }
act-IsExclusive (launches name next) runs e = launched-IsExclusive name next runs _ refl e

act-stopped :
    (step : Step) (runs : Runs)
    → runs.stopped ≡ true
    → ((act step runs).stopped ≡ true) × ((act step runs).started ≡ runs.started)
unfolding act launch finish_run stop
act-stopped (settles name) runs s = (s, refl)
act-stopped stops runs s = (refl, refl)
act-stopped (launches name next) runs s =
    let same = launched-stopped name next runs (current_run name runs.running) s in
    (ap (λ (r : Runs). r.stopped) same ∙ s, ap (λ (r : Runs). r.started) same)

act_all-stopped :
    (steps : List Step) (runs : Runs)
    → runs.stopped ≡ true
    → (act_all steps runs).started ≡ runs.started
unfolding act_all
act_all-stopped [] runs s = refl
act_all-stopped (step ∷ steps) runs s =
    let (still, same) = act-stopped step runs s in
    act_all-stopped steps (act step runs) still ∙ same

act_all-once :
    (steps : List Step) (runs : Runs) → IsExclusive runs → IsExclusive (act_all steps runs)
unfolding act_all
act_all-once [] runs e = e
act_all-once (step ∷ steps) runs e =
    act_all-once steps (act step runs) (act-IsExclusive step runs e)

-- If no name runs twice at first, then after any launches, settled runs and stops no name runs
-- twice, and once the module is stopped no task is started any more.
pub act_all-IsExclusive :
    (before after : List Step) (runs : Runs)
    → IsExclusive runs
    → IsExclusive (act_all after (act_all before runs))
      × ((act_all before runs).stopped ≡ true
          → (act_all after (act_all before runs)).started ≡ (act_all before runs).started)
act_all-IsExclusive before after runs e = (
  act_all-once after (act_all before runs) (act_all-once before runs e),
  act_all-stopped after (act_all before runs),
)
