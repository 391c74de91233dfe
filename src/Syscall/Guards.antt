-- ===== src/Syscall/Guards.antt =====
-- What the handlers let through to the routines behind them.
use uw_cse451_operating_syst.Base.{
  ltb→lt, ℕ, ◌+◌, ◌-◌, ◌%◌, ◌^◌, ◌<◌, ◌≡◌, ◌⊎◌, inl, inr, sym, ap, ◌∙◌, Bool, false, some, arith,
  ltb, leb, if◌then◌else◌, Bool-cases, Option-cases,
}
use uw_cse451_operating_syst.Base.Outcome.{Outcome, done, >>=-eq-done}
use uw_cse451_operating_syst.Base.Machine.{int_to_u64, is_negative, minus_one}
use uw_cse451_operating_syst.Syscall.{Caller, fetcharg, argint, argptr, argstr, argfd, fetchstr}
use uw_cse451_operating_syst.Syscall.Strings.{Within, AreSmall, fetchstr-Within}
use uw_cse451_operating_syst.Syscall.Calls.{
  descriptor, buffer, sys_read, sys_write, sleep_round, returns, sleeps,
}

-- The arguments of a read or a write that has passed the checks.
pub record Passed (c : Caller) (fd p n : ℕ) : Type 0 where
  pub fd_range : fd < 16
  pub fd_value : fd ≡ c.registers 0 % 2 ^ 32
  pub size_range : n < 2 ^ 31
  pub size_value : n ≡ c.registers 2 % 2 ^ 32
  pub pointer : argptr c 1 n ≡ done (some p)

argint-value : (c : Caller) (n v : ℕ) → argint c n ≡ done v → v ≡ c.registers n % 2 ^ 32
unfolding argint fetcharg
argint-value c n v h = elim (Bool-cases (ltb n 6)) [
  | inl t ↦ sym (cc (rw t at h))
  | inr t ↦ cc (rw t at h)
]

descriptor-value :
    (c : Caller) (fd : ℕ)
    → descriptor c ≡ done (some fd)
    → (fd < 16) × (fd ≡ c.registers 0 % 2 ^ 32)
unfolding descriptor argfd
descriptor-value c fd h =
    let (v, run, rest) = >>=-eq-done (argint c 0) _ h in
    elim (Bool-cases (is_negative v)) [
      | inl n ↦ cc (rw n at rest)
      | inr n ↦ elim (Bool-cases (ltb v 16)) [
        | inr f ↦ cc (rw (n, f) at rest)
        | inl f ↦
            let same : v ≡ fd = cc (rw (n, f) at rest) in
            rw⁻¹ same (ltb→lt v 16 f, argint-value c 0 v run)
      ]
    ]

buffer-value :
    (c : Caller) (p n : ℕ)
    → buffer c ≡ done (some (p, n))
    → (n < 2 ^ 31) × (n ≡ c.registers 2 % 2 ^ 32) × (argptr c 1 n ≡ done (some p))
unfolding buffer
buffer-value c p n h =
    let (v, run, rest) = >>=-eq-done (argint c 2) _ h in
    elim (Bool-cases (is_negative v)) [
      | inl f ↦ cc (rw f at rest)
      | inr f ↦
          let (o, run1, last) = >>=-eq-done (argptr c 1 v) _ (rw f at rest) in
          elim (Option-cases o) [
            | inl e ↦ cc (rw e at last)
            | inr (q, e) ↦
                let same : v ≡ n = cc (rw e at last) in
                let here : q ≡ p = cc (rw e at last) in
                rw⁻¹ (same, here) (ground arith, argint-value c 2 v run, run1 ∙ ap done e)
          ]
    ]

-- `sys_read` refuses with -1 and changes nothing, or hands to `fileread` a descriptor below NOFILE, a
-- size that is not negative, and the pointer that `argptr` has accepted for that size.
pub sys_read-Passed :
    {S : Type 0} (fileread : (fd buf n : ℕ) → S → Outcome (ℕ × S)) (c : Caller) (s s1 : S) (ret : ℕ)
    → sys_read fileread c s ≡ done (ret, s1)
    → ((ret ≡ minus_one) × (s1 ≡ s))
      ⊎ ((fd : ℕ) × (p : ℕ) × (n : ℕ) × Passed c fd p n × (fileread fd p n s ≡ done (ret, s1)))
unfolding sys_read
sys_read-Passed fileread c s s1 ret h =
    let (o, run, rest) = >>=-eq-done (descriptor c) _ h in
    elim (Option-cases o) [
      | inl e ↦ inl (sym (cc (rw e at rest)), sym (cc (rw e at rest)))
      | inr (fd, e) ↦
          let (b, run1, rest1) = >>=-eq-done (buffer c) _ (rw e at rest) in
          let (lt, fv) = descriptor-value c fd (run ∙ ap done e) in
          elim (Option-cases b) [
            | inl f ↦ inl (sym (cc (rw f at rest1)), sym (cc (rw f at rest1)))
            | inr (pn, f) ↦
                let (nl, nv, ptr) = buffer-value c pn.0 pn.1 (run1 ∙ ap done f) in
                inr (
                  fd,
                  pn.0,
                  pn.1,
                  record {
                    fd_range = lt;
                    fd_value = fv;
                    size_range = nl;
                    size_value = nv;
                    pointer = ptr;
                  },
                  rw f at rest1,
                )
          ]
    ]

argstr-value :
    (c : Caller) (n q : ℕ)
    → argstr c n ≡ done (some q)
    → (q ≡ int_to_u64 (c.registers n % 2 ^ 32)) × (is_negative (fetchstr c c.regions q) ≡ false)
unfolding argstr
argstr-value c n q h =
    let (a, run, rest) = >>=-eq-done (argint c n) _ h in
    elim (Bool-cases (is_negative (fetchstr c c.regions (int_to_u64 a)))) [
      | inl f ↦ cc (rw f at rest)
      | inr f ↦
          let same : int_to_u64 a ≡ q = cc (rw f at rest) in
          (
            sym same ∙ ap int_to_u64 (argint-value c n a run),
            ap (λ x. is_negative (fetchstr c c.regions x)) (sym same) ∙ f,
          )
    ]

int_to_u64-small : (n : ℕ) → int_to_u64 n < 2 ^ 64
int_to_u64-small n = elim (Bool-cases (ltb (n % 2 ^ 32) (2 ^ 31))) [
  | inl t ↦ rw t (omega arith)
  | inr t ↦ rw t (omega arith)
]

-- `sys_write` refuses with -1 and changes nothing, or hands to `filewrite` a descriptor and a size that have
-- passed the checks, and as its buffer not the pointer that `argptr` has accepted but the low 32 bits of it,
-- extended by their sign; and only if the bytes there are a string with a zero byte in the same region.
pub sys_write-Within :
    {S : Type 0} (filewrite : (fd buf n : ℕ) → S → Outcome (ℕ × S)) (c : Caller) (s s1 : S)
    (ret : ℕ)
    → AreSmall c.regions
    → sys_write filewrite c s ≡ done (ret, s1)
    → ((ret ≡ minus_one) × (s1 ≡ s))
      ⊎ ((fd : ℕ) × (p : ℕ) × (n : ℕ) × Passed c fd p n
          × Within c.memory c.regions
              (int_to_u64 (c.registers 1 % 2 ^ 32))
              (fetchstr c c.regions (int_to_u64 (c.registers 1 % 2 ^ 32)))
          × (filewrite fd (int_to_u64 (c.registers 1 % 2 ^ 32)) n s ≡ done (ret, s1)))
unfolding sys_write
sys_write-Within filewrite c s s1 ret small h =
    let (o, run, rest) = >>=-eq-done (descriptor c) _ h in
    elim (Option-cases o) [
      | inl e ↦ inl (sym (cc (rw e at rest)), sym (cc (rw e at rest)))
      | inr (fd, e) ↦
          let (b, run1, rest1) = >>=-eq-done (buffer c) _ (rw e at rest) in
          let (lt, fv) = descriptor-value c fd (run ∙ ap done e) in
          elim (Option-cases b) [
            | inl f ↦ inl (sym (cc (rw f at rest1)), sym (cc (rw f at rest1)))
            | inr (pn, f) ↦
                let (nl, nv, ptr) = buffer-value c pn.0 pn.1 (run1 ∙ ap done f) in
                let (q, run2, rest2) = >>=-eq-done (argstr c 1) _ (rw f at rest1) in
                elim (Option-cases q) [
                  | inl g ↦ inl (sym (cc (rw g at rest2)), sym (cc (rw g at rest2)))
                  | inr (buf, g) ↦
                      let (same, positive) = argstr-value c 1 buf (run2 ∙ ap done g) in
                      let last : filewrite fd buf pn.1 s ≡ done (ret, s1) = rw g at rest2 in
                      inr (
                        fd,
                        pn.0,
                        pn.1,
                        record {
                          fd_range = lt;
                          fd_value = fv;
                          size_range = nl;
                          size_value = nv;
                          pointer = ptr;
                        },
                        fetchstr-Within c c.regions (int_to_u64 (c.registers 1 % 2 ^ 32)) small
                            (int_to_u64-small (c.registers 1 % 2 ^ 32))
                            (ap (λ x. is_negative (fetchstr c c.regions x)) (sym same) ∙ positive),
                        ap (λ x. filewrite fd x pn.1 s) (sym same) ∙ last,
                      )
                ]
          ]
    ]

-- `sys_sleep` returns 0 once `n` ticks have passed since the call, and before that sleeps on, or returns -1
-- if the process was killed, also where the counter of ticks has wrapped to 0 in between.
pub sleep_round-elapsed :
    (ticks0 d n : ℕ) (killed : Bool)
    → ticks0 < 2 ^ 32
    → d < 2 ^ 32
    → sleep_round ((ticks0 + d) % 2 ^ 32) ticks0 n killed
      ≡ (if leb n d then returns 0 else if killed then returns minus_one else sleeps)
unfolding sleep_round
sleep_round-elapsed ticks0 d n killed t l =
    let e : ((ticks0 + d) % 2 ^ 32 + 2 ^ 32 - ticks0) % 2 ^ 32 ≡ d = omega arith in
    rw e (ground arith)
