-- ===== src/Objects/Making.antt =====
-- The objects that MemoryObjectBuilder::create makes (lib/Core/MemoryObject.cpp), and clCreateBuffer
-- (tools/libOpenCRun/MemoryObject.cpp). The constructor of an object with a parent also opens its region
-- in the tracker of the parent, which is add_region of Coherency.Partition and left out here.
use open_crun.Prelude.{
  ℕ, ◌+◌, Bool, true, not, ◌&&◌, List, [], ◌∷◌, Option, none, some, if◌then◌else◌, has,
}
use mathlib.Core.Option
use open_crun.Builder.{ErrorCode, is_success, out_of_host_memory}
use open_crun.Objects.{
  Outcome, ◌>>=◌, use_host_ptr, copy_host_ptr, Context, Parent, Kind, ImageFields, ObjectBuilder,
  no_image, new, set_context, set_buffer_size, set_generic_flags, done, null_context, k_buffer,
  k_sub_buffer, k_image,
}

-- A new object. `parent` is that of a sub-buffer; an image has the buffer `img.buf` as its parent.
pub record Object : Type 0 where
  pub kind : Kind
  pub context : ℕ
  pub size : ℕ
  pub host_ptr : Option ℕ
  pub flags : ℕ
  pub parent : Option Parent
  pub offset : ℕ
  pub img : ImageFields

-- computeHostPtr
unfoldable pub compute_host_ptr : Parent → ℕ → Option ℕ
compute_host_ptr p origin =
    if has p.buffer.flags use_host_ptr then Option.map (λ a. a + origin) p.host_ptr else none

unfoldable pub new_object : Context → ObjectBuilder → Object
unfolding compute_host_ptr
new_object c b = elim b.kind [
  | k_buffer ↦ record {
    kind = k_buffer;
    context = c.id;
    size = b.size;
    host_ptr = b.host_ptr;
    flags = b.flags;
    parent = none;
    offset = 0;
    img = no_image;
  }
  | k_sub_buffer ↦ record {
    kind = k_sub_buffer;
    context = c.id;
    size = b.sub_size;
    host_ptr = elim b.parent [ none ↦ none | some p ↦ compute_host_ptr p b.origin ];
    flags = b.flags;
    parent = b.parent;
    offset = b.origin;
    img = no_image;
  }
  | k_image ↦ record {
    kind = k_image;
    context = c.id;
    size = b.img.size;
    host_ptr = b.host_ptr;
    flags = b.flags;
    parent = none;
    offset = 0;
    img = b.img;
  }
]

-- What a device answers: whether it has a descriptor for the object, and whether that can be mapped.
pub record Answer : Type 0 where
  pub descriptor : Bool
  pub mapped : Bool

unfoldable pub all_answers : (Answer → Bool) → List Answer → Bool
all_answers test [] = true
all_answers test (a ∷ rest) = test a && all_answers test rest

unfoldable pub init_for_devices : ℕ → List Answer → Bool
unfolding all_answers
init_for_devices flags answers =
    all_answers (λ a. a.descriptor) answers
    && (if has flags copy_host_ptr then all_answers (λ a. a.mapped) answers else true)

-- The object that is handed out, if any, and the error code.
unfoldable pub create_in :
    Option Context → List Answer → ObjectBuilder → Outcome (Option Object × ErrorCode)
unfolding init_for_devices
create_in none answers b = if is_success b.err then null_context else done (none, b.err)
create_in (some c) answers b =
    if not (is_success b.err)
    then done (none, b.err)
    else done (
      some (new_object c b),
      if init_for_devices b.flags answers then b.err else out_of_host_memory,
    )

unfoldable pub create : List Answer → ObjectBuilder → Outcome (Option Object × ErrorCode)
unfolding create_in
create answers b = create_in b.context answers b

-- clCreateBuffer
unfoldable pub create_buffer :
    Option Context → ℕ → ℕ → Option ℕ → List Answer → Outcome (Option Object × ErrorCode)
unfolding new set_context set_buffer_size
create_buffer ctx flags size ptr answers = do
  b ← set_context ctx (new k_buffer)
  b' ← set_buffer_size size b
  b'' ← set_generic_flags flags ptr b'
  create answers b''
