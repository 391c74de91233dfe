-- ===== src/Syscall/Strings.antt =====
-- The strings that `fetchstr` and `argstr` accept.
use uw_cse451_operating_syst.Base.{
  ℕ, zero, suc, ◌+◌, ◌-◌, ◌%◌, ◌^◌, ◌≤◌, ◌<◌, ◌≡◌, ◌≢◌, inl, inr, refl, sym, ap, ◌∙◌, true, false,
  some, List, [], ◌∷◌, arith, ◌==◌, get_elem?, Bool-cases, Option-cases, ℕ-cases,
}
use uw_cse451_operating_syst.Base.Machine.{is_negative}
use uw_cse451_operating_syst.Vspace.{Region, vregioncontains, vr_top, vr_bottom}
use uw_cse451_operating_syst.Syscall.{Caller, fetchstr, find_zero}
use uw_cse451_operating_syst.Syscall.Arguments.{vregioncontains-Inside}

-- A zero byte behind `n` bytes that are not zero.
pub record IsString (memory : ℕ → ℕ) (addr n : ℕ) : Type 0 where
  pub stop : memory (addr + n) ≡ 0
  pub content : (m : ℕ) → m < n → memory (addr + m) ≢ 0

IsString-suc :
    (memory : ℕ → ℕ) (addr n : ℕ)
    → memory addr ≢ 0
    → IsString memory (addr + 1) n
    → IsString memory addr (suc n)
IsString-suc memory addr n first s = record {
  stop = ap memory (omega arith) ∙ s.stop;
  content = content;
}
  where
    content : (m : ℕ) → m < suc n → memory (addr + m) ≢ 0
    content zero l z = first (ap memory (omega arith) ∙ z)
    content (suc m) l z = s.content m (omega arith) (ap memory (omega arith) ∙ z)

find_zero-IsString :
    (memory : ℕ → ℕ) (count addr n : ℕ)
    → find_zero memory count addr ≡ some n
    → (n < count) × IsString memory addr n
unfolding find_zero
find_zero-IsString memory zero addr n h = cc h
find_zero-IsString memory (suc count) addr n h = elim (ℕ-cases (memory addr) 0) [
  | inl z ↦
      let t : memory addr == 0 ≡ true = ground arith in
      let e : 0 ≡ n = cc (rw t at h) in
      rw⁻¹ e (
        omega arith,
        record { stop = ap memory (omega arith) ∙ z; content = λ m l. absurd (omega arith) },
      )
  | inr f ↦ elim (Option-cases (find_zero memory count (addr + 1))) [
    | inl e ↦ cc (rw (f, e) at h)
    | inr (k, e) ↦
        let same : suc k ≡ n = cc (rw (f, e) at h) in
        let (l, s) = find_zero-IsString memory count (addr + 1) k e in
        rw⁻¹ same (omega (arith, l), IsString-suc memory addr k (ground arith) s)
  ]
]

-- The regions are smaller than 2^31 bytes, and lie below 2^63.
abbrev pub AreSmall : List Region → Type 0
AreSmall rs =
    (m : ℕ) (r : Region)
    → get_elem? rs m ≡ some r
    → (vr_top r ≤ vr_bottom r + 2 ^ 31) × (vr_top r < 2 ^ 63)

-- A string of a region.
pub record Within (memory : ℕ → ℕ) (rs : List Region) (addr n : ℕ) : Type 0 where
  pub index : ℕ
  pub region : Region
  pub here : get_elem? rs index ≡ some region
  pub from : vr_bottom region ≤ addr
  pub end : addr + n < vr_top region
  pub is_string : IsString memory addr n

Within-eq :
    {memory : ℕ → ℕ} {rs : List Region} {addr n n1 : ℕ}
    → Within memory rs addr n
    → n ≡ n1
    → Within memory rs addr n1
Within-eq w e = rw⁻¹ e w

-- A region in front does not matter.
Within-later :
    {memory : ℕ → ℕ} {rs : List Region} {addr n : ℕ} (r : Region)
    → Within memory rs addr n
    → Within memory (r ∷ rs) addr n
Within-later r w = record {
  index = suc w.index;
  region = w.region;
  here = w.here;
  from = w.from;
  end = w.end;
  is_string = w.is_string;
}

-- When `fetchstr` does not report -1, the result is the length of the string at the address, which lies
-- with its zero byte in one region of the process.
pub fetchstr-Within :
    (c : Caller) (rs : List Region) (addr : ℕ)
    → AreSmall rs
    → addr < 2 ^ 64
    → is_negative (fetchstr c rs addr) ≡ false
    → Within c.memory rs addr (fetchstr c rs addr)
unfolding fetchstr
fetchstr-Within c [] addr small l h = cc h
fetchstr-Within c (r ∷ rs) addr small l h =
    let next : fetchstr c (r ∷ rs) addr ≡ fetchstr c rs addr
        → Within c.memory (r ∷ rs) addr (fetchstr c (r ∷ rs) addr) =
      λ e.
        Within-eq
          (Within-later r (fetchstr-Within c rs addr (λ m s g. small (suc m) s g) l (rw e at h)))
          (sym e) in
    elim (Bool-cases (vregioncontains r addr 0)) [
      | inr f ↦ next (rw (f, fetchstr))
      | inl t ↦ elim (Option-cases (find_zero c.memory (vr_top r - addr) addr)) [
        | inl e ↦ next (rw (t, e, fetchstr))
        | inr (n, e) ↦
            let (lt, s) = find_zero-IsString c.memory (vr_top r - addr) addr n e in
            let (from, to) = vregioncontains-Inside r addr 0 t (omega arith) in
            let (size, low) = small 0 r refl in
            let value : fetchstr c (r ∷ rs) addr ≡ n % 2 ^ 32 = rw (t, e, fetchstr) in
            let w : Within c.memory (r ∷ rs) addr n = record {
              index = 0;
              region = r;
              here = refl;
              from = from;
              end = omega arith;
              is_string = s;
            } in
            Within-eq w (sym (value ∙ omega arith))
      ]
    ]
