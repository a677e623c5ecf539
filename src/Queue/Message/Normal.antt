-- ===== src/Queue/Message/Normal.antt =====
-- What Config.normalize of internal/queue/message.go accepts and returns.
use stitch.Prelude.{
  ◌≡◌, refl, sym, ap, ◌∙◌, true, false, ◌||◌, inl, inr, ok, ok_apart, ok_injective, eq_iff,
  Result-cases, Bool-cases, str_eq, arith, if◌then◌else◌,
}
use stitch.Prelude.Int.{pos, ltb_ℤ, eqb_ℤ}
use stitch.Queue.Message.{
  Config, codes, name_matches, fifo, lifo, normalize, normal_mode, normal_timeout, normal_attempts,
  default_visibility_timeout, default_max_attempts,
}

-- A configuration that needs no defaults and breaks no rule.
pub record IsNormal (c : Config) : Type 0 where
  pub name : name_matches (codes c.name) ≡ true
  pub mode : (str_eq c.mode fifo || str_eq c.mode lifo) ≡ true
  pub timeout : ltb_ℤ (pos 0) c.visibility_timeout_ms ≡ true
  pub attempts : ltb_ℤ (pos 0) c.max_attempts ≡ true

normal_mode_fixed :
    (c c' : Config)
    → normal_mode c ≡ ok c'
    → (c' ≡ record c { mode = if str_eq c.mode "" then fifo else c.mode })
      × ((str_eq c'.mode fifo || str_eq c'.mode lifo) ≡ true)
unfolding normal_mode
normal_mode_fixed c c' h = elim (Bool-cases (str_eq c.mode "")) [
  | inl blank ↦
      let e = ok_injective (record c { mode = fifo }) c' (rw (normal_mode, blank) at h) in
      rw⁻¹ e (rw blank refl, refl)
  | inr named ↦ elim (Bool-cases (str_eq c.mode fifo || str_eq c.mode lifo)) [
    | inl good ↦
        let e = ok_injective c c' (rw (normal_mode, named, good) at h) in
        rw⁻¹ e (rw named refl, good)
    | inr bad ↦ absurd (ok_apart c' _ (sym (rw (normal_mode, named, bad) at h)))
  ]
]

normal_timeout_fixed :
    (c c' : Config)
    → normal_timeout c ≡ ok c'
    → (c' ≡ record c {
      visibility_timeout_ms =
          if eqb_ℤ c.visibility_timeout_ms (pos 0)
          then default_visibility_timeout
          else c.visibility_timeout_ms;
    })
      × (ltb_ℤ (pos 0) c'.visibility_timeout_ms ≡ true)
unfolding normal_timeout
normal_timeout_fixed c c' h = elim (Bool-cases (eqb_ℤ c.visibility_timeout_ms (pos 0))) [
  | inl zero ↦
      let e =
        ok_injective (record c { visibility_timeout_ms = default_visibility_timeout }) c'
          (rw (normal_timeout, zero) at h) in
      rw⁻¹ e (rw zero refl, refl)
  | inr set ↦ elim (Bool-cases (ltb_ℤ c.visibility_timeout_ms (pos 0))) [
    | inl bad ↦ absurd (ok_apart c' _ (sym (rw (normal_timeout, set, bad) at h)))
    | inr good ↦
        let positive : ltb_ℤ (pos 0) c.visibility_timeout_ms ≡ true = ground arith in
        let e = ok_injective c c' (rw (normal_timeout, set, good) at h) in
        rw⁻¹ e (rw set refl, positive)
  ]
]

normal_attempts_fixed :
    (c c' : Config)
    → normal_attempts c ≡ ok c'
    → (c' ≡ record c {
      max_attempts = if eqb_ℤ c.max_attempts (pos 0) then default_max_attempts else c.max_attempts;
    })
      × (ltb_ℤ (pos 0) c'.max_attempts ≡ true)
unfolding normal_attempts
normal_attempts_fixed c c' h = elim (Bool-cases (eqb_ℤ c.max_attempts (pos 0))) [
  | inl zero ↦
      let e =
        ok_injective (record c { max_attempts = default_max_attempts }) c'
          (rw (normal_attempts, zero) at h) in
      rw⁻¹ e (rw zero refl, refl)
  | inr set ↦ elim (Bool-cases (ltb_ℤ c.max_attempts (pos 1))) [
    | inl bad ↦ absurd (ok_apart c' _ (sym (rw (normal_attempts, set, bad) at h)))
    | inr good ↦
        let positive : ltb_ℤ (pos 0) c.max_attempts ≡ true = ground arith in
        let e = ok_injective c c' (rw (normal_attempts, set, good) at h) in
        rw⁻¹ e (rw set refl, positive)
  ]
]

abbrev with_timeout : Config → Config
with_timeout c = record c {
  visibility_timeout_ms =
      if eqb_ℤ c.visibility_timeout_ms (pos 0)
      then default_visibility_timeout
      else c.visibility_timeout_ms;
}

abbrev with_attempts : Config → Config
with_attempts c = record c {
  max_attempts = if eqb_ℤ c.max_attempts (pos 0) then default_max_attempts else c.max_attempts;
}

-- A configuration that normalize returns needs no defaults and breaks no rule, and it is the one
-- given, name and switches included, but that an empty mode is now FIFO, a timeout of 0 is the
-- default timeout, and a maximum of 0 attempts is the default maximum.
pub normalize-IsNormal :
    (c c' : Config)
    → normalize c ≡ ok c'
    → IsNormal c'
      × (c' ≡ record c {
        mode = if str_eq c.mode "" then fifo else c.mode;
        visibility_timeout_ms =
            if eqb_ℤ c.visibility_timeout_ms (pos 0)
            then default_visibility_timeout
            else c.visibility_timeout_ms;
        max_attempts =
            if eqb_ℤ c.max_attempts (pos 0) then default_max_attempts else c.max_attempts;
      })
unfolding normalize
normalize-IsNormal c c' h = elim (Bool-cases (name_matches (codes c.name))) [
  | inr bad ↦ absurd (ok_apart c' _ (sym (rw (normalize, bad) at h)))
  | inl named ↦ elim (Result-cases (normal_mode c)) [
    | inr (x, bad) ↦ absurd (ok_apart c' x (sym (rw (normalize, named, bad) at h)))
    | inl (c1, e1) ↦ elim (Result-cases (normal_timeout c1)) [
      | inr (x, bad) ↦ absurd (ok_apart c' x (sym (rw (normalize, named, e1, bad) at h)))
      | inl (c2, e2) ↦
          let (s1, m1) = normal_mode_fixed c c1 e1 in
          let (s2, t2) = normal_timeout_fixed c1 c2 e2 in
          let (s3, a3) = normal_attempts_fixed c2 c' (rw (normalize, named, e1, e2) at h) in
          (
            record {
              name = rw (ap (λ k. k.name) s3, ap (λ k. k.name) s2, ap (λ k. k.name) s1) named;
              mode = rw (ap (λ k. k.mode) s3, ap (λ k. k.mode) s2) m1;
              timeout = rw (ap (λ k. k.visibility_timeout_ms) s3) t2;
              attempts = a3;
            },
            s3 ∙ ap with_attempts s2 ∙ ap (λ k. with_attempts (with_timeout k)) s1,
          )
    ]
  ]
]

-- normalize changes nothing in a configuration that needs no defaults and breaks no rule, so it can
-- be read back from the log and normalized again.
pub normalize_normal : (c : Config) → IsNormal c → normalize c ≡ ok c
unfolding normalize normal_mode normal_timeout normal_attempts
normalize_normal c n = elim (Bool-cases (str_eq c.mode "")) [
  | inl blank ↦
      let none : c.mode ≡ "" = (eq_iff c.mode "").0 blank in
      absurd (let m = rw none at n.mode in ground (arith, m))
  | inr named ↦
      let t : eqb_ℤ c.visibility_timeout_ms (pos 0) ≡ false = ground (arith, n.timeout) in
      let t' : ltb_ℤ c.visibility_timeout_ms (pos 0) ≡ false = ground (arith, n.timeout) in
      let a : eqb_ℤ c.max_attempts (pos 0) ≡ false = ground (arith, n.attempts) in
      let a' : ltb_ℤ c.max_attempts (pos 1) ≡ false = ground (arith, n.attempts) in
      rw (
        normalize, n.name, normal_mode, named, n.mode, normal_timeout, t, t', normal_attempts, a,
        a',
      )
]
