-- ===== src/Kalloc/Entries.antt =====
-- The core map as a list: how many entries are available, and what a change at one index does.
use uw_cse451_operating_syst.Base.{
  ℕ, zero, suc, ◌+◌, ◌<◌, ◌≡◌, refl, ◌≢◌, false, none, some, List, [], ◌∷◌, arith, ◌==◌,
  if◌then◌else◌, length, get_elem?, Bool-cases, inl, inr, ap,
}
use uw_cse451_operating_syst.Kalloc.{CoreMapEntry, modify, find_available}

abbrev pub is_available : CoreMapEntry → ℕ
is_available e = if e.available == 1 then 1 else 0

unfoldable pub count_available : List CoreMapEntry → ℕ
count_available [] = 0
count_available (e ∷ es) = is_available e + count_available es

pub length-modify :
    (es : List CoreMapEntry) (i : ℕ) (f : CoreMapEntry → CoreMapEntry)
    → length (modify es i f) ≡ length es
length-modify [] i f = refl
length-modify (e ∷ es) zero f = refl
length-modify (e ∷ es) (suc i) f = ap suc (length-modify es i f)

pub count_available-modify :
    (es : List CoreMapEntry) (i : ℕ) (f : CoreMapEntry → CoreMapEntry) (e : CoreMapEntry)
    → get_elem? es i ≡ some e
    → count_available (modify es i f) + is_available e ≡ count_available es + is_available (f e)
unfolding count_available
count_available-modify [] i f e h = absurd (cc)
count_available-modify (x ∷ es) zero f e h = ground arith
count_available-modify (x ∷ es) (suc i) f e h = ground (arith, count_available-modify es i f e)

pub get_elem?-modify_self :
    (es : List CoreMapEntry) (i : ℕ) (f : CoreMapEntry → CoreMapEntry) (e : CoreMapEntry)
    → get_elem? es i ≡ some e
    → get_elem? (modify es i f) i ≡ some (f e)
get_elem?-modify_self [] i f e h = cc
get_elem?-modify_self (x ∷ es) zero f e h = ground arith
get_elem?-modify_self (x ∷ es) (suc i) f e h = get_elem?-modify_self es i f e h

pub get_elem?-modify_ne :
    (es : List CoreMapEntry) (i j : ℕ) (f : CoreMapEntry → CoreMapEntry)
    → i ≢ j
    → get_elem? (modify es i f) j ≡ get_elem? es j
get_elem?-modify_ne [] i j f h = refl
get_elem?-modify_ne (x ∷ es) zero zero f h = absurd (h refl)
get_elem?-modify_ne (x ∷ es) zero (suc j) f h = refl
get_elem?-modify_ne (x ∷ es) (suc i) zero f h = refl
get_elem?-modify_ne (x ∷ es) (suc i) (suc j) f h = get_elem?-modify_ne es i j f (λ e. h (ap suc e))

pub get_elem?-lt_length :
    (es : List CoreMapEntry) (i : ℕ) {e : CoreMapEntry} → get_elem? es i ≡ some e → i < length es
get_elem?-lt_length [] i h = absurd (cc)
get_elem?-lt_length (x ∷ es) zero h = omega arith
get_elem?-lt_length (x ∷ es) (suc i) h = omega (arith, get_elem?-lt_length es i h)

pub get_elem?-total :
    (es : List CoreMapEntry) (i : ℕ)
    → i < length es
    → (e : CoreMapEntry) × (get_elem? es i ≡ some e)
get_elem?-total [] i h = absurd (omega arith)
get_elem?-total (x ∷ es) zero h = (x, refl)
get_elem?-total (x ∷ es) (suc i) h = get_elem?-total es i (omega arith)

-- What the loop of `kalloc` finds at offset `d`: an available entry, and none before it.
pub record Found (es : List CoreMapEntry) (n d : ℕ) : Type 0 where
  pub below : d < n
  pub entry : CoreMapEntry
  pub here : get_elem? es d ≡ some entry
  pub free : entry.available ≡ 1
  pub lowest : (m : ℕ) (e : CoreMapEntry) → get_elem? es m ≡ some e → m < d → e.available ≢ 1

Found-cons :
    {es : List CoreMapEntry} {n d : ℕ} (x : CoreMapEntry)
    → (x.available == 1) ≡ false
    → Found es n d
    → Found (x ∷ es) (suc n) (suc d)
Found-cons {es} {n} {d} x miss f = record {
  below = omega (arith, f.below);
  entry = f.entry;
  here = f.here;
  free = f.free;
  lowest = low;
}
  where
    low : (m : ℕ) (e : CoreMapEntry) → get_elem? (x ∷ es) m ≡ some e → m < suc d → e.available ≢ 1
    low zero e g l = ground arith
    low (suc m) e g l = f.lowest m e g (omega arith)

pub find_available-some :
    (es : List CoreMapEntry) (n i j : ℕ)
    → find_available es n i ≡ some j
    → (d : ℕ) × (j ≡ i + d) × Found es n d
unfolding find_available
find_available-some es zero i j h = absurd (cc)
find_available-some [] (suc n) i j h = absurd (cc)
find_available-some (x ∷ es) (suc n) i j h = elim (Bool-cases (x.available == 1)) [
  | inl hit ↦ (
    0,
    ground arith,
    record {
      below = omega arith;
      entry = x;
      here = refl;
      free = ground arith;
      lowest = λ m y g l. absurd (omega arith);
    },
  )
  | inr miss ↦
      let (d, e, f) = find_available-some es n (i + 1) j (ground arith) in
      (suc d, omega arith, Found-cons x miss f)
]

pub find_available-none :
    (es : List CoreMapEntry) (n i : ℕ)
    → find_available es n i ≡ none
    → (m : ℕ) (e : CoreMapEntry) → m < n
    → get_elem? es m ≡ some e
    → e.available ≢ 1
unfolding find_available
find_available-none es zero i h m e l g = absurd (omega arith)
find_available-none [] (suc n) i h m e l g = cc
find_available-none (x ∷ es) (suc n) i h zero e l g = ground arith
find_available-none (x ∷ es) (suc n) i h (suc m) e l g =
    find_available-none es n (i + 1) (ground arith) m e (omega arith) g
