-- ===== src/Seqlock/Follows.antt =====
-- Slots that are seen early against slots that are seen in order, over one step of a thread in `breadcrumb`
-- of core/src/monitor/client.cpp.
use peepbooth.Base.{ℕ, ◌≡◌, ◌≢◌, sym, ap, ◌∙◌, subst, Bool, ℕ_discrete}
use peepbooth.SharedState.{BreadcrumbSlot, Breadcrumb}
use peepbooth.Client.{Store, slot_index}
use peepbooth.Seqlock.{Writer, idle, writing, Elsewhere}
use peepbooth.Seqlock.Invariant.{Apart}
use peepbooth.Seqlock.Early.{with_early}

-- The slot of a thread in `breadcrumb` is its shadow's with the thread's early stores.
abbrev pub Early : (ℕ → BreadcrumbSlot) → (ℕ → BreadcrumbSlot) → (Store → Bool) → Writer → Type 0
Early slots shadow ahead idle = Unit {0}
Early slots shadow ahead (writing next t b) =
    slots (slot_index t) ≡ with_early ahead t b (shadow (slot_index t))

Early-kept :
    (slots shadow slots' shadow' : ℕ → BreadcrumbSlot) (k : ℕ) (ahead : Store → Bool) (x : Writer)
    → ((j : ℕ) → k ≢ j → slots' j ≡ slots j)
    → ((j : ℕ) → k ≢ j → shadow' j ≡ shadow j)
    → Elsewhere x k
    → Early slots shadow ahead x
    → Early slots' shadow' ahead x
Early-kept slots shadow slots' shadow' k ahead idle ks kh away h = tt
Early-kept slots shadow slots' shadow' k ahead (writing next t b) ks kh away h =
    let other : k ≢ slot_index t = λ e. away (sym e) in
    ks (slot_index t) other ∙ h ∙ ap (with_early ahead t b) (sym (kh (slot_index t) other))

Apart-Elsewhere :
    (next : Store) (t : ℕ) (b : Breadcrumb) (x : Writer)
    → Apart (writing next t b) x
    → Elsewhere x (slot_index t)
Apart-Elsewhere next t b idle h = tt
Apart-Elsewhere next t b (writing next' u b') h = λ e. h (sym e)

pub record Follows (slots shadow : ℕ → BreadcrumbSlot) (ahead : ℕ → Store → Bool)
    (writer : ℕ → Writer) : Type 0 where
  pub busy : (i : ℕ) → Early slots shadow (ahead i) (writer i)
  pub still : (k : ℕ) → ((i : ℕ) → Elsewhere (writer i) k) → slots k ≡ shadow k

-- A step of a thread that stands at its slot.
module _ (slots shadow slots' shadow' : ℕ → BreadcrumbSlot) (ahead ahead' : ℕ → Store → Bool)
    (writer writer' : ℕ → Writer) (i : ℕ) (next : Store) (t : ℕ) (b : Breadcrumb)
    (here : writer i ≡ writing next t b) (others : (j : ℕ) → i ≢ j → writer' j ≡ writer j)
    (others_ahead : (j : ℕ) → i ≢ j → ahead' j ≡ ahead j)
    (kept : (j : ℕ) → slot_index t ≢ j → slots' j ≡ slots j)
    (kept_shadow : (j : ℕ) → slot_index t ≢ j → shadow' j ≡ shadow j)
    (apart : (j : ℕ) → i ≢ j → Apart (writer i) (writer j)) where
  old-Elsewhere :
      (k : ℕ)
      → slot_index t ≢ k
      → ((j : ℕ) → Elsewhere (writer' j) k)
      → (j : ℕ) → Elsewhere (writer j) k
  old-Elsewhere k other away j = elim (ℕ_discrete i j) [
    | yes same ↦
        subst (λ m. Elsewhere (writer m) k) same (subst (λ w. Elsewhere w k) (sym here) other)
    | no differ ↦ subst (λ w. Elsewhere w k) (others j differ) (away j)
  ]

  pub moved-Follows :
      Follows slots shadow ahead writer
      → Early slots' shadow' (ahead' i) (writer' i)
      → (Elsewhere (writer' i) (slot_index t) → slots' (slot_index t) ≡ shadow' (slot_index t))
      → Follows slots' shadow' ahead' writer'
  moved-Follows f own ended = record {
    busy = λ j. elim (ℕ_discrete i j) [
      | yes same ↦ subst (λ m. Early slots' shadow' (ahead' m) (writer' m)) same own
      | no differ ↦
          subst (λ w. Early slots' shadow' (ahead' j) w) (sym (others j differ))
            (subst (λ a. Early slots' shadow' a (writer j)) (sym (others_ahead j differ))
              (Early-kept slots shadow slots' shadow' (slot_index t) (ahead j) (writer j) kept
                kept_shadow
                (Apart-Elsewhere next t b (writer j)
                  (subst (λ w. Apart w (writer j)) here (apart j differ)))
                (f.busy j)))
    ];
    still = λ k away. elim (ℕ_discrete (slot_index t) k) [
      | yes same ↦
          subst (λ m. slots' m ≡ shadow' m) same
            (ended (subst (λ m. Elsewhere (writer' i) m) (sym same) (away i)))
      | no other ↦ kept k other ∙ f.still k (old-Elsewhere k other away) ∙ sym (kept_shadow k other)
    ];
  }
