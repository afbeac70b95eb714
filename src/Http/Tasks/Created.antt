-- ===== src/Http/Tasks/Created.antt =====
-- Which tasks HandleCreateTask of master/internal/http/task_handler.go lets into the queue.
use agentic_cloud_cluster.Base.{
  String, ◌≡◌, refl, Bool, true, false, Option, none, some, List, [], ◌∷◌, ◌++◌, ◌==◌, ◌⊎◌, inl,
  inr, ℤ, arith, Option-cases, Bool-cases,
}
use agentic_cloud_cluster.Float.{Float, lt, le, literal, zero}
use agentic_cloud_cluster.Proto.{Task}
use agentic_cloud_cluster.Server.State.{MasterServer, Call, QueuedTask, text}
use agentic_cloud_cluster.Server.Queue.{submit_task, enqueue_task}
use agentic_cloud_cluster.Http.Tasks.{
  TaskRequest, CreateReply, created, task_of, check_request, handle_create_task,
}

abbrev pub is_created : CreateReply → Bool
is_created (created id) = true
is_created reply = false

module _ {N : Type 0} ⦃f : Float N⦄ where
  -- What the handler has checked of a task.
  pub record IsChecked (task : Task N) : Type 0 where
    pub image : (task.docker_image == "") ≡ false
    pub cpu : le task.req.cpu zero ≡ false
    pub memory : le task.req.memory zero ≡ false
    pub at_least : lt task.sla_multiplier (literal 3 2) ≡ false
    pub at_most : lt (literal 5 2) task.sla_multiplier ≡ false

module _ {N : Type 0} ⦃f : Float N⦄ (parse : String → Option N) where
  task_of-IsChecked :
      (r : TaskRequest) (nanos : String) (now : ℤ)
      → check_request parse r ≡ none
      → IsChecked (task_of parse r nanos now)
  unfolding check_request
  task_of-IsChecked r nanos now ok =
      let low = f.literal_mono 2 1 3 2 refl refl refl in
      let high = f.literal_mono 5 2 2 1 refl refl refl in
      record {
        image = ground (arith, ok);
        cpu = ground (arith, ok);
        memory = ground (arith, ok);
        at_least = ground (arith, ok, low);
        at_most = ground (arith, ok, high);
      }

  refusals :
      (r : TaskRequest) (e : CreateReply) → check_request parse r ≡ some e → is_created e ≡ false
  unfolding check_request
  refusals r e h = ground (arith, h)

module _ {N S : Type 0} ⦃f : Float N⦄ where
  -- An answer 201: a task that has been checked stands at the end of the queue, and nothing else of
  -- the server has changed.
  pub record IsAccepted (s s' : MasterServer N S) (reply : CreateReply) : Type 0 where
    pub queued : QueuedTask N
    pub named : reply ≡ created queued.task.task_id
    pub checked : IsChecked queued.task
    pub server : s' ≡ record s { task_queue = s.task_queue ++ queued ∷ [] }

  -- Another answer: the server is as before, and nothing is asked of the database.
  pub record IsRefused (s s' : MasterServer N S) (reply : CreateReply) (calls : List (Call N))
      : Type 0 where
    pub unnamed : is_created reply ≡ false
    pub server : s' ≡ s
    pub silent : calls ≡ []

module _ {N S : Type 0} ⦃f : Float N⦄ (parse : String → Option N) where
  -- A request to create a task either puts one task at the end of the queue, which has an image,
  -- asks for a positive amount of processor and of memory and has a multiplier between 1.5 and 2.5,
  -- the default of 2 included, and is answered with the name of that task; or it is refused, and
  -- changes nothing.
  pub handle_create_task-cases :
      (s : MasterServer N S) (method : String) (body : Option TaskRequest) (nanos : String)
      (now : ℤ)
      → let (reply, s', calls, metadata) = handle_create_task parse s method body nanos now in
        IsAccepted s s' reply ⊎ IsRefused s s' reply calls
  unfolding handle_create_task submit_task enqueue_task
  handle_create_task-cases s method none nanos now =
      inr (record { unnamed = ground arith; server = ground arith; silent = ground arith })
  handle_create_task-cases s method (some r) nanos now = elim (Bool-cases (method == "POST")) [
    | inr other ↦ inr (record {
      unnamed = ground (arith, other);
      server = ground (arith, other);
      silent = ground (arith, other);
    })
    | inl post ↦ elim (Option-cases (check_request parse r)) [
      | inr (e, bad) ↦ inr (record {
        unnamed = ground (arith, post, bad, refusals parse r e bad);
        server = ground (arith, post, bad);
        silent = ground (arith, post, bad);
      })
      | inl ok ↦ inl (record {
        queued = record {
          task = task_of parse r nanos now;
          queued_at = now;
          retries = 0;
          last_error = text "Task submitted to queue for scheduling";
        };
        named = ground (arith, post, ok);
        checked = task_of-IsChecked parse r nanos now ok;
        server = ground (arith, post, ok);
      })
    ]
  ]
