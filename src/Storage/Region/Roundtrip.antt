-- ===== src/Storage/Region/Roundtrip.antt =====
-- Region identities are read back, so that different regions never share a marker.
use weather.Common.{
  ℕ, ◌<◌, ◌≡◌, refl, subst, ap, Bool, true, false, Option, none, some, [], ◌∷◌, ◌++◌, if◌then◌else◌,
  All, take, length, arith,
}
use weather.Common.Text.{Text, codes}
use weather.Common.Decimal.{padded, is_digit, parse_int-padded, length-padded, padded-All}
use weather.Storage.Region.{
  logical_region_encoding, parse_region_id, after_separator, is_mean_region_id, lead_token,
}

take-append : (xs ys : Text) → take (length xs) (xs ++ ys) ≡ xs
take-append [] ys = refl
take-append (x ∷ xs) ys = ap (◌∷◌ x) (take-append xs ys)

-- No digit begins a separator.
after_separator-digits :
    (xs ys : Text)
    → All (λ c. is_digit c ≡ true) xs
    → after_separator (xs ++ (b'_' ∷ b'L' ∷ ys)) ≡ ys
unfolding after_separator
after_separator-digits [] ys h = refl
after_separator-digits (x ∷ []) ys h = ground arith
after_separator-digits (x ∷ y ∷ xs) ys h = ground (arith, after_separator-digits (y ∷ xs) ys h.1)

after_separator-mem :
    (xs ys : Text)
    → All (λ c. is_digit c ≡ true) xs
    → after_separator (codes "mem" ++ (xs ++ (b'_' ∷ b'L' ∷ ys))) ≡ ys
unfolding after_separator
after_separator-mem [] ys h = refl
after_separator-mem (x ∷ xs) ys h = after_separator-digits (x ∷ xs) ys h

abbrev pub IsShort : Option ℕ → Type 0
IsShort none = Unit
IsShort (some m) = m < 1000

parse_member :
    (lead m : ℕ)
    → m < 1000
    → parse_region_id (logical_region_encoding lead (some m) false) ≡ some (some m, lead)
unfolding logical_region_encoding parse_region_id
parse_member lead m h =
    let e : take 3 (padded 3 m ++ (b'_' ∷ lead_token lead)) ≡ padded 3 m =
      subst (λ k. take k (padded 3 m ++ (b'_' ∷ lead_token lead)) ≡ padded 3 m)
        (length-padded 2 m h) (take-append (padded 3 m) (b'_' ∷ lead_token lead)) in
    rw
      (
        e,
        parse_int-padded 2 m,
        after_separator-mem (padded 3 m) (padded 4 lead) (padded-All 3 m),
        parse_int-padded 3 lead,
      )
      refl

-- Every encoded region is read back as its member and lead, for the mean product as no member,
-- where a member has at most three digits.
pub region_roundtrip :
    (lead : ℕ) (member : Option ℕ) (is_mean : Bool)
    → IsShort member
    → (parse_region_id (logical_region_encoding lead member is_mean)
        ≡ some (if is_mean then none else member, lead))
      × (is_mean_region_id (logical_region_encoding lead member is_mean) ≡ is_mean)
unfolding logical_region_encoding parse_region_id is_mean_region_id
region_roundtrip lead member true h = (rw (parse_int-padded 3 lead) refl, refl)
region_roundtrip lead none false h = (rw (parse_int-padded 3 lead) refl, refl)
region_roundtrip lead (some m) false h = (parse_member lead m h, refl)

-- So two regions with the same identity are the same: same lead, both or neither the mean, and
-- otherwise the same member.
pub region_injective :
    (lead lead' : ℕ) (member member' : Option ℕ) (is_mean is_mean' : Bool)
    → IsShort member
    → IsShort member'
    → logical_region_encoding lead member is_mean ≡ logical_region_encoding lead' member' is_mean'
    → (lead ≡ lead') × (is_mean ≡ is_mean') × (is_mean ≡ false → member ≡ member')
region_injective lead lead' member member' is_mean is_mean' h h' e =
    let (p, q) = region_roundtrip lead member is_mean h in
    let (p', q') = region_roundtrip lead' member' is_mean' h' in
    let same : is_mean ≡ is_mean' = cc in
    let pairs : ◌≡◌ {A = Option (Option ℕ × ℕ)} (some (if is_mean then none else member, lead))
        (some (if is_mean' then none else member', lead')) =
      cc in
    (ground arith, same, λ m. ground arith)
