-- ===== src/Origins/Clean.antt =====
-- What NormalizeList puts out.
use text.Mathlib.Text.{◌==◌ as str_eq}
use text.Mathlib.TextEquality.{eq_iff}
use brenox_engine.Base.{
  ◌+◌, ◌≤◌, ◌≡◌, refl, ◌∙◌, subst, ◌<◌, ltb→lt, ◌⊎◌, inl, inr, Bool, true, false, ◌||◌, List, [],
  ◌∷◌, Option, none, some, String, ltb, ltb→le, is_some, if◌then◌else◌, select, count, length, All,
  Bool-cases, arith,
}
use brenox_engine.Base.Monad.{Result, ok, err}
use brenox_engine.Origins.Lists.{
  OriginLibrary, OriginError, contains, normalize, validate, normalize_each, reverse, in_order,
  normalize_list, max_origins_per_app,
}

abbrev pub is_text : String → String → Bool
is_text o x = str_eq x o

abbrev pub map_normal : OriginLibrary → List String → List String
map_normal lib [] = []
map_normal lib (x ∷ xs) = normalize lib x ∷ map_normal lib xs

-- The items, normalized, each once and each valid, and no others; or else one is not valid, or there
-- are too many.
pub record IsClean (lib : OriginLibrary) (origins out : List String) : Type 0 where
  pub few : length out ≤ 20
  pub once : (o : String) → count (is_text o) out ≤ 1
  pub valid : All (λ o. validate lib o ≡ none) out
  pub same : (o : String) → contains out o ≡ contains (map_normal lib origins) o

abbrev pub Outcome : OriginLibrary → List String → Result OriginError (List String) → Type 0
Outcome lib origins (ok out) = IsClean lib origins out
Outcome lib origins (err e) =
    (max_origins_per_app < length origins)
    ⊎ (is_some (select (λ x. is_some (validate lib (normalize lib x))) origins) ≡ true)

-- What the loop keeps: it has done `before`, and what is left has the length `left`.
pub record Sound (lib : OriginLibrary) (out : List String) : Type 0 where
  pub once : (o : String) → count (is_text o) out ≤ 1
  pub valid : All (λ o. validate lib o ≡ none) out

absent_count : (o : String) (xs : List String) → contains xs o ≡ false → count (is_text o) xs ≡ 0
unfolding contains
absent_count o [] h = refl
absent_count o (x ∷ xs) h = ground (arith, absent_count o xs)

Sound-add :
    (lib : OriginLibrary) (x : String) (out : List String)
    → contains out x ≡ false
    → validate lib x ≡ none
    → Sound lib out
    → Sound lib (x ∷ out)
Sound-add lib x out absent good v = record {
  once = λ o. at o (Bool-cases (str_eq x o));
  valid = (good, v.valid);
}
  where
    at : (o : String) → (str_eq x o ≡ true) ⊎ (str_eq x o ≡ false) → count (is_text o) (x ∷ out) ≤ 1
    at o (inl e) =
        let same : x ≡ o = (eq_iff x o).0 e in
        let nothing : count (is_text o) out ≡ 0 =
          subst (λ t. count (is_text t) out ≡ 0) same (absent_count x out absent) in
        rw e (omega (arith, nothing))
    at o (inr e) = rw e (omega (arith, v.once o))

module _ (lib : OriginLibrary) where
  reverse-count :
      (q : String → Bool) (out xs : List String)
      → count q (reverse out xs) ≡ count q out + count q xs
  unfolding reverse
  reverse-count q out [] = omega arith
  reverse-count q out (x ∷ xs) = omega (arith, reverse-count q (x ∷ out) xs)

  reverse-length : (out xs : List String) → length (reverse out xs) ≡ length out + length xs
  unfolding reverse
  reverse-length out [] = omega arith
  reverse-length out (x ∷ xs) = omega (arith, reverse-length (x ∷ out) xs)

  reverse-All :
      (P : String → Type 0) (out xs : List String) → All P out → All P xs → All P (reverse out xs)
  unfolding reverse
  reverse-All P out [] h k = h
  reverse-All P out (x ∷ xs) h (p, k) = reverse-All P (x ∷ out) xs (p, h) k

  reverse-contains :
      (o : String) (out xs : List String)
      → contains (reverse out xs) o ≡ (contains out o || contains xs o)
  unfolding reverse contains
  reverse-contains o out [] = ground arith
  reverse-contains o out (x ∷ xs) = ground (arith, reverse-contains o (x ∷ out) xs)

  -- The loop from `out` over `xs`.
  abbrev Loop : List String → List String → Result OriginError (List String) → Type 0
  Loop out xs (ok r) =
      Sound lib r
      × (length r ≤ length out + length xs)
      × ((o : String) → contains r o ≡ (contains out o || contains (map_normal lib xs) o))
  Loop out xs (err e) = is_some (select (λ x. is_some (validate lib (normalize lib x))) xs) ≡ true

  Loop-skip :
      (out xs : List String) (x : String) (p : Result OriginError (List String))
      → contains out (normalize lib x) ≡ true
      → Loop out xs p
      → Loop out (x ∷ xs) p
  unfolding contains
  Loop-skip out xs x (ok r) e (s, n, same) =
      (s, omega (arith, n), λ o. at o (Bool-cases (str_eq (normalize lib x) o)))
    where
      at :
          (o : String)
          → (str_eq (normalize lib x) o ≡ true) ⊎ (str_eq (normalize lib x) o ≡ false)
          → contains r o ≡ (contains out o || contains (map_normal lib (x ∷ xs)) o)
      at o (inl f) =
          let here : contains out o ≡ true =
            subst (λ t. contains out t ≡ true) ((eq_iff (normalize lib x) o).0 f) e in
          rw (same o, here) refl
      at o (inr f) = rw f (same o)
  Loop-skip out xs x (err f) e h = ground (arith, h)

  Loop-take :
      (out xs : List String) (x : String) (p : Result OriginError (List String))
      → Loop (normalize lib x ∷ out) xs p
      → Loop out (x ∷ xs) p
  unfolding contains
  Loop-take out xs x (ok r) (s, n, same) = (s, omega (arith, n), λ o. ground (arith, same o))
  Loop-take out xs x (err f) h = ground (arith, h)

  loop : (out xs : List String) → Sound lib out → Loop out xs (normalize_each lib out xs)
  unfolding normalize_each contains
  loop out [] v = (v, omega arith, λ o. ground arith)
  loop out (x ∷ xs) v =
      step (loop out xs v) (λ w. loop (normalize lib x ∷ out) xs w) (validate lib (normalize lib x))
        refl
    where
      step :
          Loop out xs (normalize_each lib out xs)
          → (Sound lib (normalize lib x ∷ out)
              → Loop (normalize lib x ∷ out) xs (normalize_each lib (normalize lib x ∷ out) xs))
          → (o : Option OriginError) → validate lib (normalize lib x) ≡ o
          → Loop out (x ∷ xs) (elim o as (λ y. Result OriginError (List String)) [
            | some e ↦ err e
            | none ↦
                if contains out (normalize lib x)
                then normalize_each lib out xs
                else normalize_each lib (normalize lib x ∷ out) xs
          ])
      step skip take (some e) bad = rw bad refl
      step skip take none good = (elim (Bool-cases (contains out (normalize lib x))) [
        | inl e ↦ rw e (Loop-skip out xs x _ e skip)
        | inr e ↦ rw e (Loop-take out xs x _ (take (Sound-add lib (normalize lib x) out e good v)))
      ])

-- NormalizeList gives back the origins in normal form, at most 20, each once and each valid, and
-- exactly those; it fails only if there are more than 20 or if one of them is not valid.
pub normalize_list-Outcome :
    (lib : OriginLibrary) (origins : List String) → Outcome lib origins (normalize_list lib origins)
unfolding normalize_list in_order contains
normalize_list-Outcome lib origins = elim (Bool-cases (ltb max_origins_per_app (length origins))) [
  | inl many ↦ rw many (inl (ltb→lt max_origins_per_app (length origins) many))
  | inr few ↦ rw few (
      settle (normalize_each lib [] origins) (ltb→le max_origins_per_app (length origins) few)
        (loop lib [] origins (record { once = λ o. omega arith; valid = tt })))
]
  where
    settle :
        (p : Result OriginError (List String))
        → length origins ≤ max_origins_per_app
        → Loop lib [] origins p
        → Outcome lib origins (in_order p)
    settle (ok r) few (s, n, same) = record {
      few = omega (arith, reverse-length lib [] r, n, few);
      once = λ o. omega (arith, reverse-count lib (is_text o) [] r, s.once o);
      valid = reverse-All lib (λ o. validate lib o ≡ none) [] r tt s.valid;
      same = λ o. reverse-contains lib o [] r ∙ same o;
    }
    settle (err e) few bad = inr bad
