-- ===== src/Builder/WriteBuffer.antt =====
-- EnqueueWriteBufferBuilder and the command that it creates (lib/Core/Command.cpp), with the chain
-- of calls in clEnqueueWriteBuffer (tools/libOpenCRun/EnqueueCommand.cpp).
pub mod Accepted
use open_crun.Prelude.{ℕ, Bool, true, false, ◌&&◌, List, Option, none, some, if◌then◌else◌, ltb}
use open_crun.Builder.{
  Builder, Buffer, Queue, MemObject, Event, Created, created, new_builder, notify_error,
  check_buffer, check_pointer, no_host_write, is_wait_list_inconsistent, set_blocking_wait_list,
  exec_status_error, invalid_value, size_add, deref, unless_failed,
}

pub record WriteBuffer : Type 0 where
  pub base : Builder
  pub target : Option Buffer
  pub source : Option ℕ
  pub blocking : Bool
  pub offset : ℕ
  pub size : ℕ

pub record Command : Type 0 where
  pub source : Option ℕ
  pub target : Buffer
  pub blocking : Bool
  pub offset : ℕ
  pub size : ℕ
  pub wait_list : List Event

unfoldable pub new : Queue → Option MemObject → Option ℕ → WriteBuffer
unfolding new_builder check_buffer check_pointer
new q buf source =
    let (target, b) = check_buffer no_host_write q buf (new_builder q) in
    record {
      base = check_pointer source b;
      target = target;
      source = source;
      blocking = false;
      offset = 0;
      size = 0;
    }

unfoldable pub set_blocking : Bool → WriteBuffer → WriteBuffer
unfolding is_wait_list_inconsistent notify_error
set_blocking blocking r =
    if blocking && is_wait_list_inconsistent r.base
    then record r { base = notify_error exec_status_error r.base }
    else record r { blocking = blocking }

unfoldable pub set_copy_area : ℕ → ℕ → WriteBuffer → WriteBuffer
unfolding notify_error size_add
set_copy_area offset size r = elim r.target [
  | none ↦ r
  | some t ↦
      if ltb t.size (size_add offset size)
      then record r { base = notify_error invalid_value r.base }
      else record r { offset = offset; size = size }
]

unfoldable pub set_wait_list : ℕ → Option (ℕ → Option Event) → WriteBuffer → WriteBuffer
unfolding set_blocking_wait_list
set_wait_list n evs r = record r { base = set_blocking_wait_list r.blocking n evs r.base }

unfoldable pub create : WriteBuffer → Created Command
unfolding deref unless_failed
create r = unless_failed r.base (
    deref r.target λ t. created (record {
      source = r.source;
      target = t;
      blocking = r.blocking;
      offset = r.offset;
      size = r.size;
      wait_list = r.base.wait_list;
    }))

-- What clEnqueueWriteBuffer calls after its checks of the queue and of a size of zero.
unfoldable pub build :
    Queue
    → Option MemObject
    → Option ℕ
    → Bool
    → ℕ
    → ℕ
    → ℕ
    → Option (ℕ → Option Event)
    → Created Command
unfolding new set_blocking set_copy_area set_wait_list create
build q buf source blocking offset size n evs =
    create
      (set_wait_list n evs (set_copy_area offset size (set_blocking blocking (new q buf source))))
