-- ===== src/Lab/Quota.antt =====
-- services/platform-api/internal/lab/quota.go: admission limits. A Go `int` is an integer; the sum of
-- `AdmitInstanceCount`, whose arguments are arbitrary, wraps around, and the sums of counts that
-- `AdmitCreate` forms stay far below 2^63.
use website_go_based.Base.{ltb, ◌-◌, ◌≡◌, ◌||◌, ok, Result, reject, ◌>>◌, arith, ◌↔◌, if◌then◌else◌}
use website_go_based.Base.Int.{ℤ, pos, ◌+ℤ◌, ◌≤ℤ◌, ltb_ℤ, leb_ℤ, +ℤ_parts, negsuc}

pub data QuotaError : Type 0 where
  limits_not_positive instance_limit capacity_exceeded negative_usage : QuotaError

pub record Quota : Type 0 where
  pub max_active_labs : ℤ
  pub max_temporary_containers : ℤ
  pub max_instances_per_lab : ℤ

pub record Usage : Type 0 where
  pub active_labs : ℤ
  pub temporary_containers : ℤ

pub record Reservation : Type 0 where
  pub temporary_containers : ℤ
  pub instances : ℤ

unfoldable pub validate : Quota → Result QuotaError (Unit {0})
validate q =
    reject
      (leb_ℤ q.max_active_labs (pos 0)
        || leb_ℤ q.max_temporary_containers (pos 0)
        || leb_ℤ q.max_instances_per_lab (pos 0))
      limits_not_positive

unfoldable pub admit_create : Quota → Usage → Reservation → Result QuotaError (Unit {0})
unfolding validate
admit_create q usage r = do
  validate q
  reject (leb_ℤ r.instances (pos 0) || ltb_ℤ q.max_instances_per_lab r.instances) instance_limit
  reject (ltb_ℤ r.temporary_containers r.instances) capacity_exceeded
  reject (ltb_ℤ usage.active_labs (pos 0) || ltb_ℤ usage.temporary_containers (pos 0))
      negative_usage
  reject
      (ltb_ℤ q.max_active_labs (usage.active_labs +ℤ pos 1)
        || ltb_ℤ q.max_temporary_containers (usage.temporary_containers +ℤ r.temporary_containers))
      capacity_exceeded

-- The value that a 64-bit int has where the sum of two of them is this.
unfoldable pub wrap_int : ℤ → ℤ
wrap_int (pos n) = if ltb n 9223372036854775808 then pos n else negsuc (18446744073709551615 - n)
wrap_int (negsuc n) = if ltb n 9223372036854775808 then negsuc n else pos (18446744073709551615 - n)

unfoldable pub admit_instance_count : Quota → ℤ → ℤ → Result QuotaError (Unit {0})
unfolding validate wrap_int
admit_instance_count q current delta = do
  validate q
  let next = wrap_int (current +ℤ delta)
  reject (leb_ℤ next (pos 0) || ltb_ℤ q.max_instances_per_lab next) instance_limit

-- What an accepted creation guarantees, and nothing more.
pub record Admitted (q : Quota) (usage : Usage) (r : Reservation) : Type 0 where
  pub one_instance : pos 1 ≤ℤ r.instances
  pub instances_fit : r.instances ≤ℤ q.max_instances_per_lab
  pub containers_cover : r.instances ≤ℤ r.temporary_containers
  pub labs_known : pos 0 ≤ℤ usage.active_labs
  pub containers_known : pos 0 ≤ℤ usage.temporary_containers
  pub labs_fit : usage.active_labs +ℤ pos 1 ≤ℤ q.max_active_labs
  pub containers_fit :
      usage.temporary_containers +ℤ r.temporary_containers ≤ℤ q.max_temporary_containers

-- `AdmitCreate` succeeds exactly when the reservation has an instance, covers its instances with
-- containers, and fits all three limits on top of a nonnegative usage.
pub admit_create_iff :
    (q : Quota) (usage : Usage) (r : Reservation)
    → (admit_create q usage r ≡ ok tt) ↔ Admitted q usage r
unfolding admit_create
admit_create_iff q usage r = (
  λ e. record {
    one_instance = ground arith;
    instances_fit = ground arith;
    containers_cover = ground arith;
    labs_known = ground arith;
    containers_known = ground arith;
    labs_fit = ground arith;
    containers_fit = ground arith;
  },
  λ a. ground (
    arith,
    +ℤ_parts usage.active_labs (pos 1),
    +ℤ_parts usage.temporary_containers r.temporary_containers,
  ),
)
