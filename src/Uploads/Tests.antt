-- ===== src/Uploads/Tests.antt =====
-- src/controllers/upload.controller.ts on a database in memory.
use file_processing_system.Prelude.{All, ◌⊎◌, ◌≡◌, refl, true, false, [], none, some, ◌∷◌}
use file_processing_system.Prelude.Text.{codes}
use file_processing_system.Effects.{ok}
use file_processing_system.Storage.{S3Client}
use file_processing_system.Uploads.{UploadParts, UploadSchemas, confirm_batch}
use file_processing_system.Uploads.Schemas.{
  ConfirmUpload, BatchConfirm, check_confirm, has_csv_suffix, is_csv_suffix,
}
use file_processing_system.Uploads.Batches.{Stopped, IsVerified, confirm_batch_atomic}
use file_processing_system.Worker.Database.{Database, memory}

abbrev bucket : S3Client Database
bucket = record {
  signed_put_url = λ key length seconds db. (ok [], db);
  head_object = λ key db. (ok (some 10), db);
  copy_object = λ source target db. (ok tt, db);
  delete_object = λ key db. (ok tt, db);
  get_object = λ key db. (ok none, db);
  uuid = λ db. (ok (codes "7"), db);
}

-- Bodies that hold the three members of a confirmation.
abbrev schemas : UploadSchemas ConfirmUpload
schemas = record {
  presign = λ body. none;
  presign_partial =
      λ body. some (record { priority = none; validation_rules = none; batch_id = none });
  confirm = check_confirm;
  batch_presign = λ body. none;
  batch_confirm = λ body. none;
}

abbrev parts : UploadParts Database ConfirmUpload
parts = record {
  config = record {
    s3_bucket = codes "b";
    queue_max_retries = 3;
    duplicate_hash_threshold_bytes = 100;
    is_development = false;
  };
  schemas = schemas;
  s3 = bucket;
  mongo = memory;
  queue = record { add = λ entry db. (ok tt, db); add_bulk = λ entries db. (ok tt, db) };
  redis = record {
    get = λ key db. (ok none, db);
    setex = λ key seconds text db. (ok tt, db);
    del = λ keys db. (ok tt, db);
    keys = λ pattern db. (ok [], db);
  };
  io = none;
}

abbrev empty_database : Database
empty_database = record { files = λ id. none; jobs = λ id. none; results = λ id. none }

csv_names : has_csv_suffix (codes "A.CsV") ≡ true
unfolding has_csv_suffix is_csv_suffix
csv_names = refl

abbrev batch : BatchConfirm
batch = record {
  batch_id = codes "b";
  files = record { s3_key = codes "k"; original_name = codes "a.csv"; file_size = 9 } ∷ [];
  priority = 5;
  validation_rules = none;
}

confirm_batch_atomic_example :
    All (IsVerified parts empty_database) batch.files
    ⊎ (Stopped (confirm_batch parts batch empty_database)
        × ((confirm_batch parts batch empty_database).1 ≡ empty_database))
confirm_batch_atomic_example = confirm_batch_atomic parts (λ key db. refl) batch empty_database
