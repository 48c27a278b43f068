-- ===== src/Sdk/Examples.antt =====
-- Runs of the owning classes of nvrm_cpp_sdk.
use nvidia_haiku.Prelude.{◌+◌, ◌≡◌, refl, none, some, [], ◌∷◌, arith}
use nvidia_haiku.Sdk.Owner.{count_of}
use nvidia_haiku.Sdk.FileDesc
use nvidia_haiku.Sdk.RmObject
use nvidia_haiku.Sdk.KmsSurface
use nvidia_haiku.Sdk.Program.{World, makes, assigns, detaches, destroys, Reach, initial, next}
use nvidia_haiku.Sdk.Conservation.{owners, RmObject_conserved}
use nvidia_haiku.Sdk.Mapping.{MemoryMapping}

-- A descriptor is moved into an empty object, which is then destroyed.
abbrev descriptors : World FileDesc.owner
descriptors = record {
  objects = record { fd = none } ∷ [];
  acquired = λ r. 0 + count_of r (some 3) + 0;
  released = λ r. 0 + 0 + count_of r (some 3);
  detached = λ r. 0;
}

descriptors-Reach : Reach FileDesc.owner descriptors
unfolding FileDesc.owner FileDesc.move_assign FileDesc.destroy
descriptors-Reach =
    next
      (next (next (next initial (makes (record { fd = some 3 }))) (makes (record { fd = none })))
        (assigns 0 1 (omega arith) refl refl))
      (destroys 0 refl)

abbrev handles : World RmObject.owner
handles = record {
  objects = record { rm = some 1; h_object = 77 } ∷ [];
  acquired = λ r. 0 + count_of r (some 77);
  released = λ r. 0;
  detached = λ r. 0;
}

handles-Reach : Reach RmObject.owner handles
unfolding RmObject.owner
handles-Reach = next initial (makes (record { rm = some 1; h_object = 77 }))

RmObject_conserved_example :
    handles.acquired 77
    ≡ owners RmObject.owner 77 handles.objects + handles.released 77 + handles.detached 77
RmObject_conserved_example = RmObject_conserved {w = handles} 77 handles-Reach

abbrev surfaces : World KmsSurface.owner
surfaces = record {
  objects = record { kms_dev = some 1; surface = 0 } ∷ [];
  acquired = λ r. 0 + count_of r (some 5);
  released = λ r. 0;
  detached = λ r. 0 + count_of r (some 5);
}

surfaces-Reach : Reach KmsSurface.owner surfaces
unfolding KmsSurface.owner KmsSurface.detach
surfaces-Reach =
    next (next initial (makes (record { kms_dev = some 1; surface = 5 }))) (detaches 0 refl)

abbrev mapped : MemoryMapping
mapped = record { linear = 9; address = some 65536; size = 4096; area = some 12 }
