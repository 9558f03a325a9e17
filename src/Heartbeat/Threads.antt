-- ===== src/Heartbeat/Threads.antt =====
-- How many threads stand between the last two stores of `heartbeat` in core/src/monitor/client.cpp.
use peepbooth.Base.{
  ℕ, zero, suc, ℕ_discrete, ◌<◌, ◌+◌, ◌≤◌, ◌≡◌, refl, sym, ap, ◌∙◌, update, update_self, update_ne,
  arith,
}
use peepbooth.Heartbeat.{Publisher, counting}

-- A thread that has stored its time and not yet counted it.
abbrev pub mark : Publisher → ℕ
mark counting = 1
mark _ = 0

unfoldable pub in_between : ℕ → (ℕ → Publisher) → ℕ
in_between zero p = 0
in_between (suc n) p = in_between n p + mark (p n)

pub in_between-le : (n : ℕ) (p : ℕ → Publisher) → in_between n p ≤ n
unfolding in_between
in_between-le zero p = omega arith
in_between-le (suc n) p = ground (arith, in_between-le n p)

in_between-update_above :
    (n : ℕ) (p : ℕ → Publisher) (i : ℕ) (x : Publisher)
    → n ≤ i
    → in_between n (update p i x) ≡ in_between n p
unfolding in_between
in_between-update_above zero p i x above = refl
in_between-update_above (suc n) p i x above = rw (
  in_between-update_above n p i x (omega arith),
  update_ne p i n x (λ same. absurd (omega (arith, same))),
)

-- A thread's move, by what it was and what it is.
pub in_between-update :
    (n : ℕ) (p : ℕ → Publisher) (i : ℕ) (x : Publisher)
    → i < n
    → in_between n (update p i x) + mark (p i) ≡ in_between n p + mark x
unfolding in_between
in_between-update zero p i x below = absurd (omega arith)
in_between-update (suc n) p i x below = elim (ℕ_discrete i n) [
  | yes last ↦
      let here : mark (update p i x n) ≡ mark x =
        ap (λ (j : ℕ). mark (update p i x j)) (sym last) ∙ ap mark (update_self p i x) in
      let was : mark (p i) ≡ mark (p n) = ap (λ (j : ℕ). mark (p j)) last in
      omega (arith, here, was, in_between-update_above n p i x (omega (arith, last)))
  | no before ↦
      let there : mark (update p i x n) ≡ mark (p n) = ap mark (update_ne p i n x before) in
      omega (arith, there, in_between-update n p i x (omega (arith, before)))
]
