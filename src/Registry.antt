-- ===== src/Registry.antt =====
-- The latency statistics of the process: the `learners` map, the objects that it points to, and
-- `tracked_spans`, with the functions that `serve` calls on them.
pub mod Store
pub mod Fetch
pub mod Family
pub mod Handle
pub mod Init
pub mod Trace
pub mod Reordered
pub mod Steps
use latlearn.Common.{
  ℕ, ℤ, Bytes, Bool, true, false, not, Option, none, some, List, [], ◌∷◌, ◌++◌, codes, ◌==◌,
  if◌then◌else◌, length, get_elem?, set,
}
use latlearn.Common.Int.{◌-ℤ◌, ltb_ℤ, max_int64, min_int64}
use latlearn.Common.Dict.{lookup, insert}
use latlearn.Learner.{LatencyLearner, new_learner, after2}

-- A pointer to a `latencyLearner` is its place in the heap, and nil is `none`. Of a
-- `variantLatencyLearner` there is one pointer, the entry of the map, so it stands there by value.
pub record VariantLatencyLearner : Type 0 where
  pub latency_learner : Option ℕ
  pub parent : Option ℕ

-- `latencyLearnerI`.
pub data LearnerRef : Type 0 where
  ll_ref : ℕ → LearnerRef
  vll_ref : VariantLatencyLearner → LearnerRef

abbrev pub get_ll : LearnerRef → Option ℕ
get_ll (ll_ref a) = some a
get_ll (vll_ref v) = v.latency_learner

abbrev pub get_vll : LearnerRef → Option VariantLatencyLearner
get_vll (ll_ref a) = none
get_vll (vll_ref v) = some v

pub record Registry : Type 0 where
  pub heap : List LatencyLearner
  pub learners : List (Bytes × LearnerRef)
  pub tracked_spans : List Bytes

-- The learner of a span, made if there is none, and whether there was one.
unfoldable pub latency_learner : Registry → Bytes → Registry × Option ℕ × Bool
latency_learner r span = elim (lookup span r.learners) [
  | none ↦ (
    record r {
      heap = r.heap ++ new_learner span ∷ [];
      learners = insert span (ll_ref (length r.heap)) r.learners;
    },
    some (length r.heap),
    false,
  )
  | some lli ↦ (r, get_ll lli, true)
]

unfoldable pub variant_latency_learner :
    Registry → Bytes → Registry × Option VariantLatencyLearner × Bool
variant_latency_learner r span = elim (lookup span r.learners) [
  | none ↦
      let vll : VariantLatencyLearner = record {
        latency_learner = some (length r.heap);
        parent = none;
      } in
      (
        record r {
          heap = r.heap ++ new_learner span ∷ [];
          learners = insert span (vll_ref vll) r.learners;
        },
        some vll,
        false,
      )
  | some lli ↦ (r, get_vll lli, true)
]

-- `name(variant)`, or the name alone where the variant is empty.
unfoldable pub span_key_form : Bytes → Bytes → Bytes
span_key_form name variant =
    if not (variant == []) then name ++ (codes "(" ++ (variant ++ codes ")")) else name

-- `if !found { tracked_spans = append( tracked_spans, key)}`
unfoldable pub track : Registry → Bool → Bytes → Registry
track r found key = if found then r else record r { tracked_spans = r.tracked_spans ++ key ∷ [] }

-- `if ll != nil { ll.after2( dur)}`
unfoldable pub after2_at : Registry → Option ℕ → ℤ → Registry
after2_at r none dur = r
after2_at r (some a) dur = elim (get_elem? r.heap a) [
  | none ↦ r
  | some ll ↦ record r { heap = set r.heap a (after2 ll dur) }
]

-- `vll.parent = pll`, for the variant learner under `key`.
unfoldable pub set_variant : Registry → Bytes → VariantLatencyLearner → Registry
set_variant r key vll = record r { learners = insert key (vll_ref vll) r.learners }

-- The learner of a key, made and tracked if there was none; nil makes the caller return.
unfoldable pub tracked_learner : Registry → Bytes → Registry × Option ℕ
tracked_learner r key =
    let (r, ll, found) = latency_learner r key in
    elim ll [ none ↦ (r, none) | some a ↦ (track r found key, some a) ]

unfoldable pub tracked_variant : Registry → Bytes → Registry × Option VariantLatencyLearner
tracked_variant r key =
    let (r, vll, found) = variant_latency_learner r key in
    elim vll [ none ↦ (r, none) | some v ↦ (track r found key, some v) ]

-- A sample for the learner with pointer `pll`, as the parent, and for the variant's own learner.
unfoldable pub sample_family : Registry → Bytes → VariantLatencyLearner → Option ℕ → ℤ → Registry
sample_family r key vll pll dur =
    let vll = record vll { parent = pll } in
    let r = set_variant r key vll in
    let r = after2_at r vll.parent dur in after2_at r vll.latency_learner dur

-- The branch of `handle_ssu_A` for a sample with a variant.
unfoldable pub variant_sample : Registry → Bytes → Bytes → ℤ → Registry × Bool
variant_sample r name variant dur =
    let parent_key = span_key_form name [] in
    let (r, pll) = tracked_learner r parent_key in
    elim pll [
      | none ↦ (r, false)
      | some p ↦
          let variant_key = span_key_form name variant in
          let (r, vll) = tracked_variant r variant_key in
          elim vll [
            | none ↦ (r, false)
            | some v ↦ (sample_family r variant_key v (some p) dur, true)
          ]
    ]

-- The branch for a sample without one.
unfoldable pub plain_sample : Registry → Bytes → ℤ → Registry × Bool
plain_sample r name dur =
    let key = span_key_form name [] in
    let (r, ll) = tracked_learner r key in
    elim ll [ none ↦ (r, false) | some a ↦ (after2_at r (some a) dur, true) ]

-- `t.Sub( u)` of the package time: the difference in nanoseconds, saturated to an int64.
unfoldable pub time_sub : ℤ → ℤ → ℤ
time_sub t u =
    let d = t -ℤ u in
    if ltb_ℤ max_int64 d then max_int64 else if ltb_ℤ d min_int64 then min_int64 else d

-- `handle_ssu_A`: a finished sample of the span `name`, of its variant if there is one.
unfoldable pub handle_ssu_a : Registry → Bytes → Bytes → ℤ → ℤ → Registry × Bool
handle_ssu_a r name variant t1 t2 =
    let dur = time_sub t2 t1 in
    if not (variant == []) then variant_sample r name variant dur else plain_sample r name dur

-- The spans of latlearn's own benchmarks, in report order.
abbrev pub overhead_span : Bytes
overhead_span = codes "LL.no-op"

unfoldable pub spans_latlearn_builtin : List Bytes
spans_latlearn_builtin =
    overhead_span
    ∷ codes "LL.fn-call-return"
    ∷ codes "LL.for-iters(n=1000)"
    ∷ codes "LL.accum-ints(n=1000)"
    ∷ codes "LL.add-int-literals(n=2)"
    ∷ codes "LL.add-str-literals(n=2)"
    ∷ codes "LL.map-str-int-set"
    ∷ codes "LL.map-str-int-get(k=100,key0)"
    ∷ codes "LL.map-str-int-get(k=100,key49)"
    ∷ codes "LL.map-str-int-get(k=100,key99)"
    ∷ codes "LL.span-map-lookup"
    ∷ codes "LL.sort-strs(n=10)"
    ∷ codes "LL.log-hellos(n=10)"
    ∷ codes "LL.byte-array-make(n=1)"
    ∷ codes "LL.byte-array-make(n=1k)"
    ∷ codes "LL.byte-array-make(n=100k)"
    ∷ codes "LL.exec-command(mac,sysctl)"
    ∷ codes "LL.exec-command(mac,pwd)"
    ∷ codes "LL.exec-command(mac,date)"
    ∷ codes "LL.exec-command(mac,host)"
    ∷ codes "LL.exec-command(mac,hostname)"
    ∷ codes "LL.exec-command(mac,uname)"
    ∷ codes "LL.exec-command(mac,ls)"
    ∷ codes "LL.exec-command(mac,df)"
    ∷ codes "LL.exec-command(mac,kill)"
    ∷ codes "LL.exec-command(mac,sleep=0.01s)"
    ∷ codes "LL.exec-command(mac,sleep=0.001s)"
    ∷ codes "LL.exec-command(mac,sleep=0.0001s)"
    ∷ codes "LL.exec-command(mac,sh-version)"
    ∷ codes "LL.benchmarks-total"
    ∷ codes "LL.lat-report"
    ∷ []

-- `for _, span := range spans { latency_learner( span)}`
unfoldable pub add_spans : Registry → List Bytes → Registry
add_spans r [] = r
add_spans r (span ∷ spans) = add_spans (latency_learner r span).0 spans

abbrev pub empty_registry : Registry
empty_registry = record { heap = []; learners = []; tracked_spans = [] }

-- What `init_inner` makes of `learners` and `tracked_spans`.
unfoldable pub init_registry : List Bytes → Registry
init_registry spans_app =
    let spans = spans_app ++ spans_latlearn_builtin in
    record (add_spans empty_registry spans) { tracked_spans = spans }

-- A finished sample, as it travels to `handle_ssu_A`.
pub record Sample : Type 0 where
  pub name : Bytes
  pub variant : Bytes
  pub t1 : ℤ
  pub t2 : ℤ

-- The registry after a history of samples, the newest first.
unfoldable pub run : Registry → List Sample → Registry
run r [] = r
run r (s ∷ ss) = (handle_ssu_a (run r ss) s.name s.variant s.t1 s.t2).0
