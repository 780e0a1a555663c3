-- ===== src/Storage/Tests.antt =====
-- src/services/storage.service.ts on a bucket that is an association list.
use file_processing_system.Prelude.{
  ℕ, ◌≡◌, ◌∙◌, ◌≢◌, refl, arith, ◌⊎◌, [], Option, none, some, if◌then◌else◌,
}
use file_processing_system.Prelude.Text.{Text, codes, text_eq, text_eq_iff, text_eq_refl}
use file_processing_system.Effects.{Action, other_failure, ok, failed}
use file_processing_system.Effects.Triples.{Post}
use file_processing_system.Storage.{
  S3Client, move_to_confirmed, verify_object, confirmed_key, or_zero,
}
use file_processing_system.Storage.Laws.{IsS3, move_to_confirmed-keeps_object, verify_object_iff}

-- The sizes of the objects by key.
abbrev Bucket : Type 0
Bucket = Text → Option ℕ

abbrev write : Bucket → Text → Option ℕ → Bucket
write bucket key size k = if text_eq k key then size else bucket k

abbrev head : Option ℕ → Action Bucket (Option ℕ)
head none bucket = (failed (other_failure (codes "NotFound")), bucket)
head (some size) bucket = (ok (some size), bucket)

abbrev bucket_client : S3Client Bucket
bucket_client = record {
  signed_put_url = λ key length seconds bucket. (ok (codes "https"), bucket);
  head_object = λ key bucket. head (bucket key) bucket;
  copy_object = λ source target bucket. (ok tt, write bucket target (bucket source));
  delete_object = λ key bucket. (ok tt, write bucket key none);
  get_object = λ key bucket. (ok (some []), bucket);
  uuid = λ bucket. (ok (codes "7"), bucket);
}

abbrev uploaded : Bucket
uploaded = write (λ key. none) (codes "a") (some 10)

write_same : (bucket : Bucket) (key : Text) (size : Option ℕ) → write bucket key size key ≡ size
write_same bucket key size = ground (arith, text_eq_refl key)

write_source :
    (bucket : Bucket) (source target : Text)
    → write bucket target (bucket source) source ≡ bucket source
write_source bucket source target = ground arith

write_other :
    (bucket : Bucket) (key other : Text) (size : Option ℕ)
    → key ≢ other
    → write bucket key size other ≡ bucket other
write_other bucket key other size distinct = ground (arith, text_eq_iff other key)

bucket_client-IsS3 : IsS3 bucket_client (λ bucket key. bucket key)
bucket_client-IsS3 = record {
  copy = λ source target content. record {
    run = λ w h. (write_source w source target ∙ h, write_same w target (w source) ∙ h);
  };
  delete = λ key other content distinct. record {
    run = λ w h. (write_other w key other none distinct ∙ h, write_same w key none);
  };
}

distinct_keys : codes "a" ≢ confirmed_key (codes "7") (codes "f.csv")
unfolding confirmed_key
distinct_keys = ground arith

move_to_confirmed-keeps_object_example :
    Post
      (λ key w.
        (key ≡ confirmed_key (codes "7") (codes "f.csv"))
        × (w key ≡ some 10)
        × (w (codes "a") ≡ none))
      (λ w. (w (codes "a") ≡ some 10) ⊎ (w (confirmed_key (codes "7") (codes "f.csv")) ≡ some 10))
      (move_to_confirmed bucket_client (codes "a") (codes "7") (codes "f.csv") uploaded)
unfolding text_eq
move_to_confirmed-keeps_object_example =
    (move_to_confirmed-keeps_object bucket_client (λ bucket key. bucket key) 10 (codes "a")
        (codes "7") (codes "f.csv") bucket_client-IsS3 distinct_keys).run
      uploaded refl

verify_object_iff_example : (verify_object bucket_client (codes "a") 10 uploaded).0 ≡ ok tt
unfolding text_eq or_zero
verify_object_iff_example =
    (verify_object_iff bucket_client (codes "a") 10 uploaded).1 (some 10, refl, refl, omega arith)
