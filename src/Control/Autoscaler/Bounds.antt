-- ===== src/Control/Autoscaler/Bounds.antt =====
-- A metric asks for a number of pods between the bounds of the autoscaler.
use mini_k8s.Base.{
  ltb, if◌then◌else◌, string_Eq, nat_Eq, ◌==◌, Bool-cases, Map, ℕ, ◌+◌, ◌-◌, ◌*◌, ◌/◌, ◌≤◌, ◌<◌,
  String, ◌≡◌, refl, ap, inl, inr, true, Option, some, List, arith,
}
use mini_k8s.Base.Ints.{ℤ, pos, negsuc, ◌+ℤ◌, ◌-ℤ◌, ◌*ℤ◌, ltb_ℤ, min_ℤ, percent, wrap_32, signed_32}
use mini_k8s.Api.{Uid}
use mini_k8s.Control.Autoscaler.{
  Floats, ScalingPolicy, MetricsItem, allowed_change, Autoscaler, scaled_up, scaled_down,
}

-- The change that a ratio of usage to target asks for, before it is rounded up.
abbrev pub growth : {F : Type 0} → Floats F → ℕ → F → F
growth floats cur r = floats.mul (floats.sub r floats.one_f) (floats.of_int32 (pos cur))

abbrev pub shrinkage : {F : Type 0} → Floats F → ℕ → F → F
shrinkage floats cur r = floats.mul (floats.sub floats.one_f r) (floats.of_int32 (pos cur))

-- A change that passed its threshold and is less than `limit`, the float of 2 ^ 31 - 1, is rounded up
-- to a number that is not negative. Go leaves the conversion to `int32` open from there on, so nothing
-- is said of greater changes, of infinite ones or of those that are not numbers.
pub record IsRounding {F : Type 0} (floats : Floats F) (cur : ℕ) (limit : F) : Type 0 where
  pub cpu_up :
      (r : F)
      → floats.less floats.cpu_up r ≡ true
      → floats.less (growth floats cur r) limit ≡ true
      → (a : ℕ) × (floats.int32_of_ceil (growth floats cur r) ≡ pos a)
  pub cpu_down :
      (r : F)
      → floats.less r floats.cpu_down ≡ true
      → floats.less (shrinkage floats cur r) limit ≡ true
      → (a : ℕ) × (floats.int32_of_ceil (shrinkage floats cur r) ≡ pos a)
  pub memory_up :
      (r : F)
      → floats.less floats.memory_up r ≡ true
      → floats.less (growth floats cur r) limit ≡ true
      → (a : ℕ) × (floats.int32_of_ceil (growth floats cur r) ≡ pos a)
  pub memory_down :
      (r : F)
      → floats.less r floats.memory_down ≡ true
      → floats.less (shrinkage floats cur r) limit ≡ true
      → (a : ℕ) × (floats.int32_of_ceil (shrinkage floats cur r) ≡ pos a)

-- The policy is set and allows a change of at most a thousand million pods or percent, with no
-- overflow in the percentage of `cur` pods.
abbrev pub Allows : Option ScalingPolicy → ℕ → Type 0
Allows p cur =
    (policy : ScalingPolicy) × (v : ℕ) × (p ≡ some policy)
    × (policy.value ≡ pos v)
    × (v ≤ 1000000000)
    × (v * cur < 2147483648)

-- The bounds of the autoscaler are `lo` and `hi`, at most a thousand million, `cur` is between
-- them, and both policies are set.
pub record IsBounded {F : Type 0} (hpa : Autoscaler F) (lo hi cur : ℕ) : Type 0 where
  pub min_replicas : hpa.min_replicas ≡ pos lo
  pub max_replicas : hpa.max_replicas ≡ pos hi
  pub low : lo ≤ cur
  pub high : cur ≤ hi
  pub small : hi ≤ 1000000000
  pub up : Allows hpa.scale_up cur
  pub down : Allows hpa.scale_down cur

-- A number of pods from `lo` to `hi`.
abbrev pub Within : ℕ → ℕ → ℤ → Type 0
Within lo hi n = (k : ℕ) × (n ≡ pos k) × (lo ≤ k) × (k ≤ hi)

wrap_32-small : (n : ℕ) → n < 2147483648 → wrap_32 (pos n) ≡ pos n
unfolding wrap_32 signed_32
wrap_32-small n h = ground arith

pos_mul : (a b : ℕ) → pos a *ℤ pos b ≡ pos (a * b)
unfolding ◌*ℤ◌
pos_mul a b = ground arith

pos_add : (a b : ℕ) → pos a +ℤ pos b ≡ pos (a + b)
unfolding ◌+ℤ◌
pos_add a b = ground arith

pos_sub : (a b : ℕ) → b ≤ a → pos a -ℤ pos b ≡ pos (a - b)
unfolding ◌-ℤ◌
pos_sub a b h = ground arith

min_pos : (a b : ℕ) → (k : ℕ) × (min_ℤ (pos a) (pos b) ≡ pos k) × (k ≤ a) × (k ≤ b)
unfolding min_ℤ
min_pos a b = elim (Bool-cases (ltb b a)) [
  | inl e ↦ (b, ground arith, ground arith, omega arith)
  | inr e ↦ (a, ground arith, omega arith, ground arith)
]

wrap_32-negsuc : (n : ℕ) → n < 2147483648 → wrap_32 (negsuc n) ≡ negsuc n
unfolding wrap_32 signed_32
wrap_32-negsuc n h = ground arith

sub-negsuc : (a b : ℕ) → a < b → pos a -ℤ pos b ≡ negsuc (b - a - 1)
unfolding ◌-ℤ◌
sub-negsuc a b h = ground arith

module _ (lo hi cur : ℕ) (low : lo ≤ cur) (high : cur ≤ hi) (small : hi ≤ 1000000000) where
  grown-Within :
      (k : ℕ)
      → k ≤ 1000000000
      → Within lo hi (let n = wrap_32 (pos cur +ℤ pos k) in if ltb_ℤ (pos hi) n then pos hi else n)
  grown-Within k h =
      rw (pos_add cur k, wrap_32-small (cur + k) (omega arith))
        elim (Bool-cases (ltb (hi + 0) (cur + k + 0))) [
          | inl e ↦ rw e (hi, refl, omega arith, omega arith)
          | inr e ↦ rw e (cur + k, refl, omega arith, ground arith)
        ]

  shrunk-Within :
      (k : ℕ)
      → k ≤ 1000000000
      → Within lo hi (let n = wrap_32 (pos cur -ℤ pos k) in if ltb_ℤ n (pos lo) then pos lo else n)
  shrunk-Within k h = elim (Bool-cases (ltb cur k)) [
    | inl e ↦
        rw (sub-negsuc cur k (ground arith), wrap_32-negsuc (k - cur - 1) (omega arith))
          (lo, ground arith, omega arith, omega arith)
    | inr e ↦
        rw (pos_sub cur k (ground arith), wrap_32-small (cur - k) (omega arith))
          elim (Bool-cases (ltb (cur - k + 0) (lo + 0))) [
            | inl f ↦ rw f (lo, refl, omega arith, omega arith)
            | inr f ↦ rw f (cur - k, refl, ground arith, omega arith)
          ]
  ]

module _ {F : Type 0} (floats : Floats F)
    (get_pod_metrics : Uid → ℤ → Option (Map String (List (MetricsItem F)))) (cur : ℕ) where
  allowed_change-pos :
      (p : Option ScalingPolicy) (a : ℕ)
      → Allows p cur
      → (k : ℕ) × (allowed_change floats get_pod_metrics p (pos a) (pos cur) ≡ some (pos k))
        × (k ≤ 1000000000)
  unfolding allowed_change percent
  allowed_change-pos p a (policy, v, e, f, small, fits) =
      let by_percent = min_pos a (v * cur / 100) in
      let by_pods = min_pos a v in
      elim (Bool-cases (policy.type == "Percent")) [
        | inl t ↦ (
          by_percent.0,
          rw (e, allowed_change, t, f, pos_mul v cur, wrap_32-small (v * cur) fits)
              (ap some by_percent.1),
          omega (arith, by_percent.2, by_percent.3, fits),
        )
        | inr t ↦ elim (Bool-cases (policy.type == "Pods")) [
          | inl t' ↦ (
            by_pods.0,
            rw (e, allowed_change, t, t', f) (ap some by_pods.1),
            omega (arith, by_pods.3),
          )
          | inr t' ↦ (1, rw (e, allowed_change, t, t') refl, omega arith)
        ]
      ]

  module _ (hpa : Autoscaler F) (lo hi : ℕ) (bounded : IsBounded hpa lo hi cur) where
    -- The metric has a number of pods, which is in the bounds.
    abbrev pub HasWithin : Option ℤ → Type 0
    HasWithin o = (n : ℤ) × (o ≡ some n) × Within lo hi n

    pub scaled_up-HasWithin :
        (ratio : F) (a : ℕ)
        → floats.int32_of_ceil (growth floats cur ratio) ≡ pos a
        → HasWithin (scaled_up floats get_pod_metrics hpa ratio (pos cur))
    unfolding scaled_up
    scaled_up-HasWithin ratio a e =
        let change = allowed_change-pos hpa.scale_up a bounded.up in
        rw (scaled_up, e, change.1, bounded.max_replicas)
          (_, refl, grown-Within lo hi cur bounded.low bounded.high bounded.small change.0 change.2)

    pub scaled_down-HasWithin :
        (ratio : F) (a : ℕ)
        → floats.int32_of_ceil (shrinkage floats cur ratio) ≡ pos a
        → HasWithin (scaled_down floats get_pod_metrics hpa ratio (pos cur))
    unfolding scaled_down
    scaled_down-HasWithin ratio a e =
        let change = allowed_change-pos hpa.scale_down a bounded.down in
        rw (scaled_down, e, change.1, bounded.min_replicas)
          (
            _,
            refl,
            shrunk-Within lo hi cur bounded.low bounded.high bounded.small change.0 change.2,
          )

    pub kept-HasWithin : HasWithin (some (pos cur))
    kept-HasWithin = (pos cur, refl, (cur, refl, bounded.low, bounded.high))
