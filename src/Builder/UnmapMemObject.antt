-- ===== src/Builder/UnmapMemObject.antt =====
-- EnqueueUnmapMemObjectBuilder and its command (lib/Core/Command.cpp), with the checks and the chain
-- of calls in clEnqueueUnmapMemObject (tools/libOpenCRun/EnqueueCommand.cpp).
pub mod Refused
use open_crun.Prelude.{ℕ, ◌==◌, List, [], Option, none, some, not, if◌then◌else◌}
use open_crun.Builder.{
  Builder, Queue, Event, Created, failed, null_dereference, created, success, notify_error,
  check_pointer, set_base_wait_list, invalid_value, invalid_mem_object, invalid_context, deref,
  unless_failed,
}
use open_crun.Mapping.{MemoryObject, Tables, is_valid_mapping}

-- A memory object with its context.
pub record Mapped : Type 0 where
  pub object : MemoryObject
  pub context : ℕ

pub record UnmapMemObject : Type 0 where
  pub base : Builder
  pub mem_obj : Option Mapped
  pub mapped_ptr : Option ℕ

pub record Command : Type 0 where
  pub mem_obj : Mapped
  pub mapped_ptr : Option ℕ
  pub wait_list : List Event

unfoldable pub check_object : ℕ → Option Mapped → Builder → Builder
unfolding notify_error
check_object ctx none b = notify_error invalid_mem_object b
check_object ctx (some o) b = if not (ctx == o.context) then notify_error invalid_context b else b

unfoldable pub new : ℕ → Option Mapped → Option ℕ → UnmapMemObject
unfolding check_object check_pointer
new ctx obj ptr = record {
  base =
      check_pointer ptr
        (check_object ctx obj (record { context = ctx; wait_list = []; err_code = success }));
  mem_obj = obj;
  mapped_ptr = ptr;
}

unfoldable pub set_wait_list : ℕ → Option (ℕ → Option Event) → UnmapMemObject → UnmapMemObject
unfolding set_base_wait_list
set_wait_list n evs r = record r { base = set_base_wait_list n evs r.base }

unfoldable pub create : UnmapMemObject → Created Command
unfolding deref unless_failed
create r = unless_failed r.base (
    deref r.mem_obj λ o.
      created (record { mem_obj = o; mapped_ptr = r.mapped_ptr; wait_list = r.base.wait_list }))

-- clEnqueueUnmapMemObject from its check of the pointer to its check of the command.
unfoldable pub build :
    Queue → Option Mapped → Option ℕ → ℕ → Option (ℕ → Option Event) → Tables → Created Command
unfolding new set_wait_list create is_valid_mapping
build q obj none n evs t = failed invalid_value
build q none (some p) n evs t = null_dereference
build q (some o) (some p) n evs t =
    if not (is_valid_mapping o.object p t)
    then failed invalid_value
    else create (set_wait_list n evs (new q.context (some o) (some p)))
