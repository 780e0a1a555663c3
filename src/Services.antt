-- ===== src/Services.antt =====
-- src/services/cache.service.ts, src/services/queue.service.ts, src/services/socket.service.ts and
-- src/config/index.ts, on the clients of Redis, BullMQ and socket.io, whose calls are parameters.
use file_processing_system.Prelude.{ℕ, Bool, List, [], ◌∷◌, ◌++◌, map, Option, none, some}
use file_processing_system.Prelude.Text.{Text, codes}
use file_processing_system.Effects.{Action, pure, ◌>>=◌, ◌>>◌, catch}

-- The settings that the modelled parts read.
pub record Config : Type 0 where
  pub s3_bucket : Text
  pub queue_max_retries : ℕ
  pub duplicate_hash_threshold_bytes : ℕ
  pub is_development : Bool

-- JSON of one type of values: `none` is a text that is no JSON, or is `null`.
pub record JsonCodec (A : Type 0) : Type 0 where
  pub to_json : A → Text
  pub parse : Text → Option A

pub record Redis (W : Type 0) : Type 0 where
  pub get : Text → Action W (Option Text)
  pub setex : Text → ℕ → Text → Action W Unit
  pub del : List Text → Action W Unit
  pub keys : Text → Action W (List Text)

-- `if (!data) return null; return JSON.parse(data)`
unfoldable pub parse_cached : {A : Type 0} → JsonCodec A → Option Text → Option A
parse_cached codec none = none
parse_cached codec (some []) = none
parse_cached codec (some (c ∷ s)) = codec.parse (c ∷ s)

-- Every failure of the cache is logged, and ends as a miss.
module _ {W : Type 0} (redis : Redis W) where
  unfoldable pub cache_get : {A : Type 0} → JsonCodec A → Text → Action W (Option A)
  cache_get codec key =
      catch (do data_read ← redis.get key; pure (parse_cached codec data_read)) (λ err. pure none)

  unfoldable pub cache_set : {A : Type 0} → JsonCodec A → Text → A → ℕ → Action W Unit
  cache_set codec key value seconds =
      catch (redis.setex key seconds (codec.to_json value)) (λ err. pure tt)

  unfoldable pub cache_delete : Text → Action W Unit
  cache_delete key = catch (redis.del (key ∷ [])) (λ err. pure tt)

  unfoldable pub delete_found : List Text → Action W Unit
  delete_found [] = pure tt
  delete_found (key ∷ keys) = redis.del (key ∷ keys)

  unfoldable pub delete_pattern : Text → Action W Unit
  delete_pattern pattern = catch (do keys ← redis.keys pattern; delete_found keys) (λ err. pure tt)

-- An entry of the queue 'file-processing', with the options that the service gives.
pub record QueueEntry : Type 0 where
  pub name : Text
  pub job_id : Text
  pub file_id : Text
  pub entry_id : Text
  pub priority : ℕ
  pub attempts : ℕ
  pub backoff_type : Text
  pub backoff_delay : ℕ
  pub keep_completed : ℕ
  pub keep_failed : ℕ

-- `{ jobId, fileId, priority }`
pub record JobRequest : Type 0 where
  pub job_id : Text
  pub file_id : Text
  pub priority : ℕ

pub record BullQueue (W : Type 0) : Type 0 where
  pub add : QueueEntry → Action W Unit
  pub add_bulk : List QueueEntry → Action W Unit

module _ {W : Type 0} (config : Config) (queue : BullQueue W) where
  unfoldable pub add_job : Text → Text → ℕ → Action W Unit
  add_job job_id file_id priority = queue.add (record {
    name = codes "process-csv";
    job_id = job_id;
    file_id = file_id;
    entry_id = job_id;
    priority = priority;
    attempts = config.queue_max_retries;
    backoff_type = codes "exponential";
    backoff_delay = 5000;
    keep_completed = 1000;
    keep_failed = 5000;
  })

  unfoldable pub bulk_job : JobRequest → QueueEntry
  bulk_job job = record {
    name = codes "process-csv";
    job_id = job.job_id;
    file_id = job.file_id;
    entry_id = job.job_id;
    priority = job.priority;
    attempts = config.queue_max_retries;
    backoff_type = codes "exponential";
    backoff_delay = 5000;
    keep_completed = 1000;
    keep_failed = 5000;
  }

  unfoldable pub add_batch_jobs : List JobRequest → Action W Unit
  add_batch_jobs jobs = queue.add_bulk (map bulk_job jobs)

-- The events that the server sends, with what they carry.
pub data SocketMessage : Type 0 where
  job_completed : Text → Text → SocketMessage
  job_failed : Text → Text → ℕ → SocketMessage
  stats_update : SocketMessage
  batch_update : Text → ℕ → ℕ → SocketMessage

-- `io.to(room).emit(...)`
pub record SocketServer (W : Type 0) : Type 0 where
  pub emit : Text → SocketMessage → Action W Unit

unfoldable pub job_room : Text → Text
job_room job_id = codes "job:" ++ job_id

unfoldable pub batch_room : Text → Text
batch_room batch_id = codes "batch:" ++ batch_id

abbrev pub dashboard_room : Text
dashboard_room = codes "dashboard"

-- What a connected client sends.
pub data ClientMessage : Type 0 where
  join_job leave_job join_batch leave_batch : Text → ClientMessage
  join_dashboard leave_dashboard disconnect : ClientMessage

pub data RoomChange : Type 0 where
  join_room leave_room : Text → RoomChange
  no_change : RoomChange

unfoldable pub on_client_message : ClientMessage → RoomChange
unfolding job_room batch_room
on_client_message (join_job job_id) = join_room (job_room job_id)
on_client_message (leave_job job_id) = leave_room (job_room job_id)
on_client_message (join_batch batch_id) = join_room (batch_room batch_id)
on_client_message (leave_batch batch_id) = leave_room (batch_room batch_id)
on_client_message join_dashboard = join_room dashboard_room
on_client_message leave_dashboard = leave_room dashboard_room
on_client_message disconnect = no_change

-- The service is `io`, which is null until `initialize`.
unfoldable pub emit_job_completed :
    {W : Type 0} → Option (SocketServer W) → Text → Text → Action W Unit
emit_job_completed none job_id result_id = pure tt
emit_job_completed (some io) job_id result_id = do
  io.emit (job_room job_id) (job_completed job_id result_id)
  io.emit dashboard_room stats_update

unfoldable pub emit_job_failed :
    {W : Type 0} → Option (SocketServer W) → Text → Text → ℕ → Action W Unit
emit_job_failed none job_id error attempt = pure tt
emit_job_failed (some io) job_id error attempt = do
  io.emit (job_room job_id) (job_failed job_id error attempt)
  io.emit dashboard_room stats_update

unfoldable pub emit_stats_update : {W : Type 0} → Option (SocketServer W) → Action W Unit
emit_stats_update none = pure tt
emit_stats_update (some io) = io.emit dashboard_room stats_update

unfoldable pub emit_batch_update :
    {W : Type 0} → Option (SocketServer W) → Text → ℕ → ℕ → Action W Unit
emit_batch_update none batch_id done total = pure tt
emit_batch_update (some io) batch_id done total =
    io.emit (batch_room batch_id) (batch_update batch_id done total)
