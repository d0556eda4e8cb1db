-- ===== src/Middlewares/Limited.antt =====
-- The buckets of the limiter (middlewares/limiter/limiter.go).
use go_web.Prelude.{
  none, some, List, [], ◌∷◌, ◌≡◌, sym, ap, ◌∙◌, get, get-put_self, get-put_ne, maybe_case, All,
}
use go_web.Strings.{Bytes, Bytes-discrete}
use go_web.Middlewares.{LimiterBucketRule, Ratelimit, add_bucket, add_buckets}

module _ {Bucket S : Type 0} (lib : Ratelimit Bucket S) where
  some_or_none : {b : Bucket} → some b ≡ none → ⊥
  some_or_none e = cc

  add_bucket_here :
      (rule : LimiterBucketRule) (m : List (Bytes × Bucket))
      → (b : Bucket) × (get Bytes-discrete rule.key (add_bucket lib rule m) ≡ some b)
  add_bucket_here rule m =
      maybe_case (λ m'. (b : Bucket) × (get Bytes-discrete rule.key m' ≡ some b))
        (get Bytes-discrete rule.key m) (λ _. (_, get-put_self Bytes-discrete rule.key _ m))
        (λ b there. (b, there))

  add_bucket_kept :
      (rule : LimiterBucketRule) (m : List (Bytes × Bucket)) (k : Bytes) (b : Bucket)
      → get Bytes-discrete k m ≡ some b
      → get Bytes-discrete k (add_bucket lib rule m) ≡ some b
  add_bucket_kept rule m k b h =
      maybe_case (λ m'. get Bytes-discrete k m' ≡ some b) (get Bytes-discrete rule.key m)
        (λ absent.
          get-put_ne Bytes-discrete rule.key k _ m
            (λ same. some_or_none (sym h ∙ ap (λ x. get Bytes-discrete x m) same ∙ absent))
          ∙ h)
        (λ _ _. h)

  -- A bucket that is there stays: `AddBuckets` does not replace it.
  pub add_buckets_kept :
      (rules : List LimiterBucketRule) (m : List (Bytes × Bucket)) (k : Bytes) (b : Bucket)
      → get Bytes-discrete k m ≡ some b
      → get Bytes-discrete k (add_buckets lib rules m) ≡ some b
  unfolding add_buckets
  add_buckets_kept [] m k b h = h
  add_buckets_kept (rule ∷ rules) m k b h =
      add_buckets_kept rules (add_bucket lib rule m) k b (add_bucket_kept rule m k b h)

  -- After `AddBuckets` the key of every rule has a bucket.
  pub add_buckets-All :
      (rules : List LimiterBucketRule) (m : List (Bytes × Bucket))
      → All
          (λ rule. (b : Bucket) × (get Bytes-discrete rule.key (add_buckets lib rules m) ≡ some b))
          rules
  unfolding add_buckets
  add_buckets-All [] m = tt
  add_buckets-All (rule ∷ rules) m =
      let (b, here) = add_bucket_here rule m in
      (
        (b, add_buckets_kept rules (add_bucket lib rule m) rule.key b here),
        add_buckets-All rules (add_bucket lib rule m),
      )
