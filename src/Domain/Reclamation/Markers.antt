-- ===== src/Domain/Reclamation/Markers.antt =====
-- When a region marker may be deleted.
use weather.Common.{
  ◌≡◌, ◌≢◌, ◌↔◌, refl, sym, subst, All-map, true, List, [], ◌∷◌, All, arith, Bool-cases, inl, inr,
}
use weather.Common.Text.{Text, text_eq, text_eq_iff}
use weather.Domain.Reclamation.{can_delete_region_marker, has, is_subset}

is_subset_elim : (ys xs : List Text) → is_subset xs ys ≡ true → All (λ v. has ys v ≡ true) xs
is_subset_elim ys [] h = tt
is_subset_elim ys (x ∷ xs) h = (ground arith, is_subset_elim ys xs (ground arith))

is_subset_intro : (ys xs : List Text) → All (λ v. has ys v ≡ true) xs → is_subset xs ys ≡ true
is_subset_intro ys [] h = refl
is_subset_intro ys (x ∷ xs) h = rw h.0 (is_subset_intro ys xs h.1)

has_trans :
    (ys zs : List Text) (w : Text)
    → has ys w ≡ true
    → All (λ v. has zs v ≡ true) ys
    → has zs w ≡ true
has_trans [] zs w h m = cc
has_trans (y ∷ ys) zs w h m = elim (Bool-cases (text_eq w y)) [
  | inl same ↦ subst (λ v. has zs v ≡ true) (sym ((text_eq_iff w y).0 same)) m.0
  | inr other ↦ has_trans ys zs w (ground arith) m.1
]

-- A marker may go exactly when its region has an expected variable and each expected variable is
-- among the deleted ones; and further deletions never take the permission back.
pub can_delete_iff :
    (expected deleted more : List Text)
    → ((can_delete_region_marker expected deleted ≡ true)
        ↔ ((expected ≢ []) × All (λ v. has deleted v ≡ true) expected))
      × (can_delete_region_marker expected deleted ≡ true
          → All (λ v. has more v ≡ true) deleted
          → can_delete_region_marker expected more ≡ true)
unfolding can_delete_region_marker
can_delete_iff [] deleted more = ((λ h. cc, λ h. absurd (h.0 refl)), λ h m. cc)
can_delete_iff (v ∷ expected) deleted more = (
  (
    λ h. (λ e. cc, is_subset_elim deleted (v ∷ expected) h),
    λ h. is_subset_intro deleted (v ∷ expected) h.1,
  ),
  λ h m. is_subset_intro more (v ∷ expected) (
      All-map _ _ (λ w k. has_trans deleted more w k m) (v ∷ expected)
        (is_subset_elim deleted (v ∷ expected) h)),
)
