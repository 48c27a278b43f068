-- ===== src/Accelerant/Allocation/Balanced.antt =====
-- What the constructor of NvKmsBitmap in accelerant/NvKmsBitmap.cpp holds after each of its ends.
use nvidia_haiku.Prelude.{ℕ, ◌≡◌, inl, refl, ap, ◌∙◌, List}
use nvidia_haiku.Accelerant.Allocation.{
  ColorSpace, b_rgb32, b_rgba32, other, Constants, AllocatedBitmap, map_bitmap, register_bitmap,
  export_bitmap, allocate_bitmap,
}
use nvidia_haiku.Accelerant.Cursor.{new_bitmap, memory_size}
use nvidia_haiku.Sdk.Calls.{
  Answer, Holdings, World, Leaves, and_then, on_exception, alloc, without, close, delete_object,
  delete_surface,
}
use nvidia_haiku.Sdk.Device.{Api, Device, Mapping, map_device_memory}
use nvidia_haiku.Sdk.Device.Balanced.{AtMostOneLinear, with_mapping, map_device_memory-Leaves}
use nvidia_haiku.Sdk.Unwinding.{
  Anything, at_held, and_then-Leaves, on_exception-Leaves, without_head, close-Ends,
}
use nvidia_haiku.Accelerant.Allocation.Steps.{
  with_object, with_surface, with_file, alloc_on, export_on, register_on, memory-Ends, surface-Ends,
  file-Ends, anything,
}

abbrev pub with_bitmap : Holdings → AllocatedBitmap → Holdings
with_bitmap held b = with_mapping (with_surface (with_object held b.memory) b.surface) b.mapping

-- The parts of the constructor, from the last one on, each by what the bitmap holds in the end.
map_bitmap-Leaves :
    (a : Api) (d : Device) (memory fd surface size : ℕ) (held : Holdings) (script : List Answer)
    (given : AllocatedBitmap → Holdings)
    → ((m : Mapping)
        → with_mapping held m ≡ given (record { memory = memory; surface = surface; mapping = m }))
    → Leaves given (AtMostOneLinear held) Anything (
        map_bitmap a d memory fd surface size
          (record { script = script; held = with_file held fd }))
map_bitmap-Leaves a d memory fd surface size held script given fits =
    and_then-Leaves (with_mapping file) given (AtMostOneLinear held) _ _
      (on_exception-Leaves (with_mapping file) (AtMostOneLinear held) (AtMostOneLinear file)
        (close fd) _
        (anything (with_mapping file) (AtMostOneLinear file) (λ h. h ≡ file)
          (map_device_memory a d memory 0 size 0 w)
          (map_device_memory-Leaves a d memory 0 size 0 w))
        (file-Ends fd held))
      (λ mapping w1 e.
        ap (λ (h : Holdings). record h { files = without fd h.files }) e
        ∙ ap (λ (l : List ℕ). record (with_mapping held mapping) { files = l })
            (without_head fd held.files)
        ∙ fits mapping)
  where
    file : Holdings
    file = with_file held fd

    w : World
    w = record { script = script; held = file }

register_bitmap-Leaves :
    (a : Api) (d : Device) (memory fd size : ℕ) (held : Holdings) (script : List Answer)
    (given : AllocatedBitmap → Holdings)
    → ((s : ℕ) (m : Mapping)
        → with_mapping (with_surface held s) m
          ≡ given (record { memory = memory; surface = s; mapping = m }))
    → Leaves given
        (AtMostOneLinear held)
        Anything
        (register_bitmap a d memory fd size (record { script = script; held = with_file held fd }))
register_bitmap-Leaves a d memory fd size held script given fits =
    and_then-Leaves (with_surface file) given (AtMostOneLinear held) _ _
      (on_exception-Leaves (with_surface file) (AtMostOneLinear held) (λ h. h ≡ file) (close fd) _
        (register_on fd script file (λ h. h ≡ file) refl)
        (λ w e. close-Ends fd w held (AtMostOneLinear held) e (inl refl)))
      (λ surface w1 e.
        at_held
          (λ (v : World).
            Leaves given (AtMostOneLinear held) Anything
              (on_exception (delete_surface surface) (map_bitmap a d memory fd surface size v)))
          w1 (with_surface file surface) e
          (on_exception-Leaves given (AtMostOneLinear held)
            (AtMostOneLinear (with_surface held surface)) (delete_surface surface) _
            (map_bitmap-Leaves a d memory fd surface size (with_surface held surface) w1.script
              given (fits surface))
            (surface-Ends surface held)))
  where
    file : Holdings
    file = with_file held fd

export_bitmap-Leaves :
    (a : Api) (d : Device) (memory size : ℕ) (held : Holdings) (script : List Answer)
    (given : AllocatedBitmap → Holdings)
    → ((s : ℕ) (m : Mapping)
        → with_mapping (with_surface held s) m
          ≡ given (record { memory = memory; surface = s; mapping = m }))
    → Leaves given
        (AtMostOneLinear held)
        Anything
        (export_bitmap a d memory size (record { script = script; held = held }))
export_bitmap-Leaves a d memory size held script given fits =
    and_then-Leaves (with_file held) given (AtMostOneLinear held) _ _
      (export_on a script held (AtMostOneLinear held) (inl refl))
      (λ fd w1 e.
        at_held
          (λ (v : World).
            Leaves given (AtMostOneLinear held) Anything (register_bitmap a d memory fd size v))
          w1 (with_file held fd) e
          (register_bitmap-Leaves a d memory fd size held w1.script given fits))

allocate-Leaves :
    (c : Constants) (a : Api) (d : Device) (size : ℕ) (w : World)
    → Leaves (with_bitmap w.held) (AtMostOneLinear w.held) Anything (
        and_then (alloc a.client c.memory_local_user d.device w) λ memory w1.
          on_exception (delete_object a.client memory) (export_bitmap a d memory size w1))
allocate-Leaves c a d size w =
    and_then-Leaves (with_object w.held) (with_bitmap w.held) (AtMostOneLinear w.held) _ _
      (alloc_on a.client c.memory_local_user d.device w.script w.held (AtMostOneLinear w.held)
        (inl refl))
      (λ memory w1 e.
        at_held
          (λ (v : World).
            Leaves (with_bitmap w.held) (AtMostOneLinear w.held) Anything
              (on_exception (delete_object a.client memory) (export_bitmap a d memory size v)))
          w1 (with_object w.held memory) e
          (on_exception-Leaves (with_bitmap w.held) (AtMostOneLinear w.held)
            (AtMostOneLinear (with_object w.held memory)) (delete_object a.client memory) _
            (export_bitmap-Leaves a d memory size (with_object w.held memory) w1.script
              (with_bitmap w.held) (λ s m. refl))
            (memory-Ends a.client memory w.held)))

-- The constructor of a bitmap, whatever the answers to its seven calls are: it gives a bitmap, and what
-- is held is its memory, its surface and its mapping more, and the two files it opens are closed, or it
-- raises, and what is held is as before, but for at most one mapping of the resource manager. Nothing
-- is claimed where a destructor raises or a file cannot be opened, which ends the program.
pub allocate_bitmap-Leaves :
    (c : Constants) (a : Api) (d : Device) (width height : ℕ) (color_space : ColorSpace) (w : World)
    → Leaves
        (with_bitmap w.held)
        (AtMostOneLinear w.held)
        Anything
        (allocate_bitmap c a d width height color_space w)
unfolding allocate_bitmap
allocate_bitmap-Leaves c a d width height b_rgb32 w =
    allocate-Leaves c a d (memory_size c.page_size (new_bitmap width height)) w
allocate_bitmap-Leaves c a d width height b_rgba32 w =
    allocate-Leaves c a d (memory_size c.page_size (new_bitmap width height)) w
allocate_bitmap-Leaves c a d width height (other n) w = inl refl
