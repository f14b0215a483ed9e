-- ===== src/Worker/Resources.antt =====
-- When the resources let the worker take a task, and the range of its settings.
use universal_race_calendar.Common.{
  ℕ, ◌≤◌, ◌<◌, ◌≡◌, ◌↔◌, refl, inl, inr, leb, Option, none, some, Bool-cases, arith,
}
use universal_race_calendar.Worker.{
  Measure, missing, odd, bytes, max_safe, valid, Limits, reason_of, assess_local_resources,
}

-- A measured number of bytes.
abbrev Measured : Measure → ℕ → Type 0
Measured m n = (m ≡ bytes n) × (n ≤ max_safe)

-- Everything is measured, and within the limits.
pub record Suffices (memory temp rss : Measure) (limits : Limits) : Type 0 where
  pub memory_bytes : ℕ
  pub temp_bytes : ℕ
  pub rss_bytes : ℕ
  pub memory_measured : Measured memory memory_bytes
  pub temp_measured : Measured temp temp_bytes
  pub rss_measured : Measured rss rss_bytes
  pub enough_memory : limits.min_memory_bytes ≤ memory_bytes
  pub enough_temp : limits.min_temp_bytes ≤ temp_bytes
  pub small_enough : rss_bytes < limits.max_rss_bytes

valid-some : (m : Measure) (n : ℕ) → valid m ≡ some n → Measured m n
valid-some missing n h = absurd cc
valid-some odd n h = absurd cc
valid-some (bytes k) n h = elim (Bool-cases (leb k max_safe)) [
  | inl y ↦ let e = rw y at h in ground (arith, e, y)
  | inr y ↦ absurd (let e = rw y at h in cc)
]

Measured-valid : (m : Measure) (n : ℕ) → Measured m n → valid m ≡ some n
Measured-valid m n (e, h) = rw e (ground (arith, h))

reason_of-none :
    (memory temp rss : Option ℕ) (limits : Limits)
    → reason_of memory temp rss limits ≡ none
    → (m : ℕ) × (t : ℕ) × (r : ℕ) × ((memory ≡ some m)
        × (temp ≡ some t)
        × (rss ≡ some r)
        × (limits.min_memory_bytes ≤ m)
        × (limits.min_temp_bytes ≤ t)
        × (r < limits.max_rss_bytes))
unfolding reason_of
reason_of-none (some m) (some t) (some r) limits h =
    (m, t, r, (refl, refl, refl, ground arith, ground arith, ground arith))
reason_of-none none t r limits h = absurd cc
reason_of-none (some m) none r limits h = absurd cc
reason_of-none (some m) (some t) none limits h = absurd cc

reason_of-enough :
    (m t r : ℕ) (limits : Limits)
    → limits.min_memory_bytes ≤ m
    → limits.min_temp_bytes ≤ t
    → r < limits.max_rss_bytes
    → reason_of (some m) (some t) (some r) limits ≡ none
unfolding reason_of
reason_of-enough m t r limits a b c = ground arith

-- The worker finds nothing against taking a task exactly when memory, disk and its own size are all
-- measured and within the limits.
pub assess_local_resources-none_iff :
    (memory temp rss : Measure) (limits : Limits)
    → (assess_local_resources memory temp rss limits ≡ none) ↔ Suffices memory temp rss limits
unfolding assess_local_resources
assess_local_resources-none_iff memory temp rss limits = (
  λ h.
      let (m, t, r, (em, et, er, a, b, c)) =
        reason_of-none (valid memory) (valid temp) (valid rss) limits h in
      record {
        memory_bytes = m;
        temp_bytes = t;
        rss_bytes = r;
        memory_measured = valid-some memory m em;
        temp_measured = valid-some temp t et;
        rss_measured = valid-some rss r er;
        enough_memory = a;
        enough_temp = b;
        small_enough = c;
      },
  λ s.
      let m = Measured-valid memory _ s.memory_measured in
      let t = Measured-valid temp _ s.temp_measured in
      let r = Measured-valid rss _ s.rss_measured in
      rw (m, t, r)
        (reason_of-enough s.memory_bytes s.temp_bytes s.rss_bytes limits s.enough_memory
          s.enough_temp s.small_enough),
)
