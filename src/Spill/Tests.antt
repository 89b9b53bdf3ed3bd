-- ===== src/Spill/Tests.antt =====
-- Spilling on small inputs.
use dshuffle.Prelude.{
  ℕ, zero, suc, ◌+◌, ◌<◌, ◌≡◌, refl, List, [], ◌∷◌, ◌++◌, Option, some, arith, length, get_elem?,
  get_or, ◌^◌, true, false, put, Bool, ◌%◌, ◌==◌,
}
use dshuffle.Prelude.Int.{pos}
use dshuffle.Prelude.Bytes.{read_at}
use dshuffle.Prelude.Outcome.{Outcome, ok, died, Yields}
use dshuffle.Memory.BufferPool.{
  Buffers, buffers, carve, piece, n_elements, pool, enqueue_all, enable_mt, reset,
}
use dshuffle.Memory.BufferPool
use dshuffle.Memory.Region.{empty}
use dshuffle.Memory.Layout.{IsLaidOut, buffers-IsLaidOut}
use dshuffle.Spill.Buffer.{PartitionBuffer, partition_buffer, payload, actual_size, append}
use dshuffle.Spill.Agent.{
  SpillAgent, spill_agent, append_or_spill, append_record, force_spill, resume, swap, acquire_one,
  borrow, submit_spill_buffer,
}
use dshuffle.Spill.AgentLaws.{payloads, pending, IsSafe}
use dshuffle.Spill.AgentHistory.{World, Reach, appending, resuming}
use dshuffle.Spill.AgentRecords.{start, Reach-in_order, force_spill-sends, calls-IsSafe}
use dshuffle.Spill.Files.{
  PartitionFile, Request, HostSpillWorker, spill_all, perform_all, create_partition_files,
  finish_spill, open_files,
}
use dshuffle.Spill.FileContents.{spilled, IsOpen, HasRoom}
use dshuffle.Spill.FileRuns.{spill_all-contents}
use dshuffle.Spill.FileSetup.{IsFresh, IsReady, create_partition_files-IsOpen}
use dshuffle.Spill.Direct.{DirectSpillWorker, do_mount, do_umount}
use dshuffle.Spill.DirectLaws.{finish_spill_lem}
use dshuffle.Spill.Requests.{begin_request, end_request}
use dshuffle.Spill.Shuffle.{Dispatcher, handle_spill_task, do_dispatch}
use dshuffle.Spill.ShuffleLaws.{handle_spill_task-remote, share}
use dshuffle.Spill.DispatchLaws.{do_dispatch_lem}
use dshuffle.Spill.Disk.{DiskAgent, mount_on_dpu, umount_on_dpu}
use dshuffle.Spill.DiskLaws.{
  mount_on_dpu-hands_over, umount_on_dpu-IsExclusive, mount_on_dpu-umount_on_dpu,
}
use mathlib.Core.List.{Permᴰ}

abbrev two_buffers : Buffers
two_buffers = buffers 1024 2 64

two_buffers-IsLaidOut : IsLaidOut two_buffers
two_buffers-IsLaidOut = (buffers-IsLaidOut 1024 2 64 (omega arith) (omega arith) (omega arith)).0

abbrev ones : ℕ → ℕ
ones = λ _. 1

-- A record of the key 7 and the value 8 9 waits for a buffer of partition 0.
abbrev waiting_world : World
waiting_world = record {
  agent = record (spill_agent 1 two_buffers ones) {
    slots =
        put (λ _. dshuffle.Spill.Agent.vacant) 0
          (dshuffle.Spill.Agent.refill (7 ∷ []) (8 ∷ 9 ∷ []));
  };
  sent = [];
  appended = put (λ _. []) 0 (7 ∷ 8 ∷ 9 ∷ []);
}

waiting_world-Reach : Reach (start 1 two_buffers ones) waiting_world
unfolding append_or_spill spill_agent pool enqueue_all enable_mt buffers carve reset empty
waiting_world-Reach =
    Reach.next Reach.here
      (appending (start 1 two_buffers ones) 0 (7 ∷ []) (8 ∷ 9 ∷ []) _ (omega arith) refl)

Reach-in_order_example :
    payloads 0 waiting_world.sent
      ++ (payloads 0 waiting_world.agent.spill_q ++ pending (waiting_world.agent.slots 0))
    ≡ waiting_world.appended 0
unfolding buffers
Reach-in_order_example =
    Reach-in_order 1 two_buffers ones two_buffers-IsLaidOut (omega arith) (omega arith)
      waiting_world-Reach 0

calls-IsSafe_example :
    Yields IsSafe (append_or_spill waiting_world.agent 0 [] [])
    × Yields IsSafe (force_spill waiting_world.agent 0)
    × Yields IsSafe (resume waiting_world.agent 0)
unfolding buffers spill_agent pool enqueue_all enable_mt carve
calls-IsSafe_example =
    calls-IsSafe 1 two_buffers ones two_buffers-IsLaidOut (omega arith) (omega arith) 0 [] []
      waiting_world-Reach (omega arith) (omega arith)

abbrev value_or : {A : Type 0} → Outcome A → A → A
value_or (ok a) d = a
value_or r d = d

-- The record is in a buffer, which is then spilled and taken.
abbrev filled_agent : SpillAgent
filled_agent = value_or (resume waiting_world.agent 0) waiting_world.agent

abbrev filled_world : World
filled_world = record waiting_world { agent = filled_agent }

filled_world-Reach : Reach (start 1 two_buffers ones) filled_world
unfolding resume acquire_one borrow append_record append spill_agent pool enqueue_all enable_mt
    buffers carve BufferPool.acquire_one partition_buffer
filled_world-Reach = Reach.next waiting_world-Reach (resuming waiting_world 0 _ refl)

abbrev forced_agent : SpillAgent
forced_agent = value_or (force_spill filled_agent 0) filled_agent

force_spill-sends_example : payloads 0 ([] ++ forced_agent.spill_q) ≡ 7 ∷ 8 ∷ 9 ∷ []
unfolding resume acquire_one borrow append_record append spill_agent pool enqueue_all enable_mt
    buffers carve BufferPool.acquire_one partition_buffer force_spill submit_spill_buffer swap
force_spill-sends_example =
    force_spill-sends 1 two_buffers ones two_buffers-IsLaidOut (omega arith) (omega arith) 0 5
      forced_agent (value_or (swap forced_agent 5) forced_agent) filled_world-Reach refl refl

abbrev open_fd : ℕ → Option ℕ
open_fd i = some (i + 3)

open_fd-IsFresh : (n : ℕ) → IsFresh open_fd n
open_fd-IsFresh n = record {
  succeeds = λ i h. (i + 3, refl);
  distinct = λ i j fd e e'. ground arith;
}

abbrev closed : HostSpillWorker
closed = record { max_n_partition = 2; files = []; io_q = []; in_flight = []; disk = λ _ _. 0 }

create_partition_files-IsOpen_example :
    (s' : HostSpillWorker) × (create_partition_files open_fd true closed ≡ ok s')
    × IsOpen s'
    × ((i : ℕ) (f : PartitionFile) → get_elem? s'.files i ≡ some f → IsReady open_fd true s' i f)
    × (create_partition_files open_fd true s' ≡ ok s')
create_partition_files-IsOpen_example =
    create_partition_files-IsOpen open_fd true closed (open_fd-IsFresh 2) refl (omega arith)

abbrev file : ℕ → PartitionFile
file i = record { fd = i + 3; partition_id = i; offset = 4 }

abbrev opened : HostSpillWorker
opened = record closed { files = file 0 ∷ file 1 ∷ [] }

opened-IsOpen : IsOpen opened
opened-IsOpen = record { whole = refl; distinct = λ i j f g e e' same. apart i j f g e e' same }
  where
    apart :
        (i j : ℕ) (f g : PartitionFile)
        → get_elem? opened.files i ≡ some f
        → get_elem? opened.files j ≡ some g
        → f.fd ≡ g.fd
        → i ≡ j
    apart zero zero f g e e' same = refl
    apart zero (suc zero) f g e e' same = ground (arith, same)
    apart (suc zero) zero f g e e' same = ground (arith, same)
    apart (suc zero) (suc zero) f g e e' same = refl
    apart (suc (suc i)) j f g e e' same = absurd (ground (arith, e))
    apart zero (suc (suc j)) f g e e' same = absurd (ground (arith, e'))
    apart (suc zero) (suc (suc j)) f g e e' same = absurd (ground (arith, e'))

abbrev buffer_of : ℕ → PartitionBuffer
buffer_of p = record {
  buffer = 0;
  size = 64;
  header = record { partition_id = p; length = 18 };
  bytes = λ a. a + p;
}

abbrev three_tasks : List PartitionBuffer
three_tasks = buffer_of 0 ∷ buffer_of 1 ∷ buffer_of 0 ∷ []

three_tasks-room : HasRoom payload three_tasks opened
unfolding payload actual_size
three_tasks-room zero f e = ground (arith, e)
three_tasks-room (suc zero) f e = ground (arith, e)
three_tasks-room (suc (suc p)) f e = absurd (ground (arith, e))

spill_all-contents_example :
    (s' : HostSpillWorker) × (spill_all payload three_tasks opened ≡ ok s')
    × ((order : List Request) (p : ℕ) (f : PartitionFile)
        → Permᴰ s'.in_flight order
        → get_elem? opened.files p ≡ some f
        → (read_at
              (perform_all order s'.disk f.fd)
              f.offset
              (length (spilled payload p three_tasks))
            ≡ spilled payload p three_tasks)
          × ((a : ℕ) → a < f.offset → perform_all order s'.disk f.fd a ≡ opened.disk f.fd a))
unfolding payload
spill_all-contents_example =
    spill_all-contents payload three_tasks opened opened-IsOpen refl
      (omega arith, (omega arith, (omega arith, tt)))
      (omega arith, (omega arith, (omega arith, tt))) three_tasks-room

abbrev unmounted : DirectSpillWorker
unmounted = record { mounted = false; issued_io = 0; io = closed }

-- A write of one byte of forty counts as done.
finish_spill_lem_example : finish_spill 40 (pos 1) 40 ≡ ok 40
finish_spill_lem_example = finish_spill_lem 40 40 (pos 1) (omega arith) (omega arith) (omega arith)

-- A full buffer of 40 bytes goes to another machine: 24 bytes are sent, and both ends die.
abbrev remote_buffer : PartitionBuffer
remote_buffer = record {
  buffer = 0;
  size = 64;
  header = record { partition_id = 1; length = 40 };
  bytes = λ _. 0;
}

handle_spill_task-remote_example :
    ((p : BufferPool.BufferPool) (i n_read : ℕ) → end_request p i remote_buffer n_read 24 ≡ died)
    × ((p : BufferPool.BufferPool) → begin_request p remote_buffer 24 ≡ died)
unfolding handle_spill_task actual_size
handle_spill_task-remote_example =
    handle_spill_task-remote (λ _. true) remote_buffer 24 24
      (record { counted = omega arith; within = omega arith; sized = omega arith }) refl

abbrev even : ℕ → Bool
even n = n % 2 == 0

abbrev dispatcher : Dispatcher
dispatcher = record { trsqs_i = 0; trsqs = [] ∷ [] ∷ []; dsq = 9 ∷ [] }

do_dispatch_lem_example :
    (d' : Dispatcher) × (do_dispatch even
        ((1 ∷ 2 ∷ []) ∷ (4 ∷ []) ∷ (8 ∷ []) ∷ [])
        ((6 ∷ []) ∷ [] ∷ [])
        dispatcher
      ≡ ok ((2 ∷ []) ∷ [] ∷ [] ∷ [], ([] ∷ [] ∷ [], d')))
    × (d'.dsq ≡ 9 ∷ 1 ∷ 6 ∷ [])
    × (length d'.trsqs ≡ 2)
    × (d'.trsqs_i % 2 ^ 32 ≡ 2)
    × ((j : ℕ) → get_or d'.trsqs j [] ≡ get_or dispatcher.trsqs j [] ++ share 2 j 0 (4 ∷ 8 ∷ []))
do_dispatch_lem_example =
    do_dispatch_lem even ((1 ∷ 2 ∷ []) ∷ (4 ∷ []) ∷ (8 ∷ []) ∷ []) ((6 ∷ []) ∷ [] ∷ []) dispatcher
      (omega arith) (omega arith)

abbrev agent : DiskAgent
agent = record { max_n_partition = 2; mounted = true }

abbrev up : DirectSpillWorker
up = record { mounted = true; issued_io = 0; io = closed }

-- The worker has opened a file for each of the two partitions.
abbrev handed_over : DirectSpillWorker
handed_over = record {
  mounted = true;
  issued_io = 0;
  io = record closed {
    files =
        record { fd = 3; partition_id = 0; offset = 0 }
        ∷ record { fd = 4; partition_id = 1; offset = 0 }
        ∷ [];
    disk = put (put (λ _ _. 0) 3 (λ _. 0)) 4 (λ _. 0);
  };
}

mount_on_dpu-hands_over_example :
    (pos 0 ≡ pos 0) × (pos 0 ≡ pos 0) × (false ≡ false) × (false ≡ false) × (true ≡ true)
unfolding mount_on_dpu do_mount open_files
mount_on_dpu-hands_over_example =
    mount_on_dpu-hands_over open_fd (pos 0) (pos 0) agent unmounted
      (record agent { mounted = false }) handed_over refl refl

umount_on_dpu-IsExclusive_example : (true ≡ true) × (false ≡ false)
unfolding umount_on_dpu do_umount
umount_on_dpu-IsExclusive_example =
    umount_on_dpu-IsExclusive (pos 0) (pos 0) (record agent { mounted = false }) up agent unmounted
      refl refl

mount_on_dpu-umount_on_dpu_example :
    (a' : DiskAgent) × (w' : DirectSpillWorker) × (mount_on_dpu open_fd
        (pos 0)
        (pos 0)
        agent
        unmounted
      ≡ ok (a', w'))
    × (length w'.io.files ≡ 0 + 2)
    × (w'' : DirectSpillWorker) × (umount_on_dpu (pos 0) (pos 0) a' w' ≡ ok (agent, w''))
    × (w''.mounted ≡ false)
mount_on_dpu-umount_on_dpu_example =
    mount_on_dpu-umount_on_dpu open_fd agent unmounted (open_fd-IsFresh 2) refl refl refl refl
