-- ===== src/Uploads/Sound/Tests.antt =====
-- src/controllers/upload.controller.ts on a database in memory, with a queue.
use file_processing_system.Prelude.{◌≡◌, refl, false, List, [], ◌∷◌, ◌++◌, none, some, length}
use file_processing_system.Prelude.Text.{Text, codes}
use file_processing_system.Effects.{ok, Action}
use file_processing_system.Jobs.{Mongo}
use file_processing_system.Services.{QueueEntry, add_job, cache_delete, emit_stats_update}
use file_processing_system.Storage.{verify_object, check_size, or_zero, move_to_confirmed}
use file_processing_system.Uploads.{UploadParts, confirm, parsed, confirm_upload, create_upload}
use file_processing_system.Uploads.Schemas.{
  ConfirmUpload, check_confirm, valid_upload, valid_name, in_range, valid_size,
}
use file_processing_system.Uploads.Queued.{UploadViews, Sound}
use file_processing_system.Worker.Database.{Database, memory}
use file_processing_system.JobService.{invalidate_job_cache}

-- The database and what waits in the queue.
abbrev World : Type 0
World = Database × List QueueEntry

abbrev within : {A : Type 0} → Action Database A → Action World A
within m w = ((m w.0).0, ((m w.0).1, w.1))

abbrev returning : {A : Type 0} → A → Action World A
returning a w = (ok a, w)

abbrev world_mongo : Mongo World
world_mongo = record {
  create_file = λ given. within (memory.create_file given);
  find_file = λ id. within (memory.find_file id);
  find_file_by_key = λ key. within (memory.find_file_by_key key);
  delete_file = λ id. within (memory.delete_file id);
  create_job = λ given. within (memory.create_job given);
  insert_jobs = λ given. within (memory.insert_jobs given);
  find_job = λ id. within (memory.find_job id);
  update_job = λ id update. within (memory.update_job id update);
  find_jobs = λ filters skip limit. within (memory.find_jobs filters skip limit);
  count_documents = λ filters. within (memory.count_documents filters);
  group_by_status = λ batch. within (memory.group_by_status batch);
  create_result = λ given. within (memory.create_result given);
  find_result = λ id. within (memory.find_result id);
  now = within memory.now;
}

abbrev world_parts : UploadParts World ConfirmUpload
world_parts = record {
  config = record {
    s3_bucket = codes "b";
    queue_max_retries = 3;
    duplicate_hash_threshold_bytes = 100;
    is_development = false;
  };
  schemas = record {
    presign = λ body. none;
    presign_partial =
        λ body. some (record { priority = none; validation_rules = none; batch_id = none });
    confirm = check_confirm;
    batch_presign = λ body. none;
    batch_confirm = λ body. none;
  };
  s3 = record {
    signed_put_url = λ key length seconds. returning [];
    head_object = λ key. returning (some 10);
    copy_object = λ source target. returning tt;
    delete_object = λ key. returning tt;
    get_object = λ key. returning none;
    uuid = returning (codes "7");
  };
  mongo = world_mongo;
  queue = record {
    add = λ entry w. (ok tt, (w.0, w.1 ++ entry ∷ []));
    add_bulk = λ entries w. (ok tt, (w.0, w.1 ++ entries));
  };
  redis = record {
    get = λ key. returning none;
    setex = λ key seconds text. returning tt;
    del = λ keys. returning tt;
    keys = λ pattern. returning [];
  };
  io = none;
}

abbrev world_views : UploadViews World
world_views = record { job_at = λ w. w.0.jobs; file_at = λ w. w.0.files; queued = λ w. w.1 }

abbrev empty_world : World
empty_world = (record { files = λ id. none; jobs = λ id. none; results = λ id. none }, [])

abbrev ten_bytes : ConfirmUpload
ten_bytes = record { s3_key = codes "k"; original_name = codes "a.csv"; file_size = 10 }

-- The confirmation returns on these, and queues one entry.
one_queued : length (confirm world_parts ten_bytes empty_world).1.1 ≡ 1
unfolding confirm check_confirm parsed valid_upload valid_name in_range valid_size confirm_upload
    verify_object check_size or_zero create_upload move_to_confirmed add_job invalidate_job_cache
    cache_delete emit_stats_update
one_queued = refl
