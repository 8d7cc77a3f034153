-- ===== src/Tests/Copying.antt =====
-- Copies of one alias, and of its spec, in memory.
use opnsense_operator.Base.{
  String, refl, true, some, [], ◌∷◌, arith, string_eq, nat_eq, ◌==◌, if◌then◌else◌,
}
use opnsense_operator.Api
use opnsense_operator.Manager.Launch.{ApiType}
use opnsense_operator.DeepCopy.Structs.{Foreign, TypeMeta, AliasSpec, Alias}
use opnsense_operator.DeepCopy.Memory.{Memory, fresh, strings, conditions, alias, alias_spec}
use opnsense_operator.DeepCopy.Memory.Slots.{
  strings_slot, conditions_slot, alias_slot, alias_spec_slot,
}
use opnsense_operator.DeepCopy.Generated.{Helpers, assign}
use opnsense_operator.DeepCopy.Shape.{Shape}
use opnsense_operator.DeepCopy.Shape.Pointer.{flat, flat-IsCopier}
use opnsense_operator.DeepCopy.Shape.Resources.{Copies}
use opnsense_operator.DeepCopy.Independent.{
  Independent, ObjectValue, object_shape, deep_copy_object, deep_copy_object-Independent,
}
use opnsense_operator.DeepCopy.Parts.{alias_spec_type, part_shape, deep_copy, deep_copy-Independent}
use opnsense_operator.Tests.Objects.{home, live, ready, web_alias_spec}

-- Metadata and conditions without references.
abbrev O : Foreign
O = record {
  ObjectMeta = Api.ObjectMeta;
  ListMeta = String;
  Condition = Api.Condition;
  Pointee = Unit;
}

abbrev H : Helpers O
H = record { object_meta_into = assign; list_meta_into = assign; condition_into = assign }

H-Copies : Copies O H
H-Copies = record {
  ListMeta = String;
  object_meta = flat;
  list_meta = flat;
  condition = flat;
  object_meta-IsCopier = flat-IsCopier;
  list_meta-IsCopier = flat-IsCopier;
  condition-IsCopier = flat-IsCopier;
}

abbrev spec : AliasSpec
spec = record {
  connection_ref = home;
  name = "web";
  type = "host";
  entries = some 0;
  description = "servers";
  enabled = true;
}

abbrev type_meta : TypeMeta
type_meta = record { kind = "Alias"; api_version = "firewall.opnsense.io/v1alpha1" }

abbrev object : Alias O
object = record {
  type_meta = type_meta;
  meta = live;
  spec = spec;
  status = record { uuid = "a1"; observed_generation = 3; conditions = some 1 };
}

-- The array of entries, that of the conditions, the alias, and its spec alone.
abbrev m : Memory O
m = record {
  next = 4;
  cell = λ a.
      if a == 0
      then strings ("10.0.0.1" ∷ "10.0.0.2" ∷ [])
      else if a == 1
      then conditions (ready ∷ [])
      else if a == 2
      then alias object
      else if a == 3
      then alias_spec spec
      else fresh;
}

abbrev value : ObjectValue H H-Copies ApiType.alias
value = record {
  type_meta = type_meta;
  meta = live;
  spec = web_alias_spec;
  status = record { uuid = "a1"; observed_generation = 3; conditions = ready ∷ [] };
}

alias_reads : Shape.Reads (object_shape H H-Copies ApiType.alias) 0 m.next m (some 2) (some value)
unfolding H-Copies alias_slot strings_slot conditions_slot nat_eq
alias_reads = record {
  value = object;
  low = omega arith;
  high = omega arith;
  held = refl;
  reads = (
    refl,
    refl,
    (
      refl,
      (
        some (web_alias_spec.entries),
        record {
          value = web_alias_spec.entries;
          low = omega arith;
          high = omega arith;
          held = refl;
          reads = refl;
        },
        refl,
      ),
    ),
    (
      refl,
      (
        some (ready ∷ []),
        record {
          value = ready ∷ [];
          low = omega arith;
          high = omega arith;
          held = refl;
          reads = (refl, tt);
        },
        refl,
      ),
    ),
  );
}

spec_reads :
    Shape.Reads (part_shape H H-Copies alias_spec_type) 0 m.next m (some 3) (some web_alias_spec)
unfolding H-Copies alias_spec_slot strings_slot nat_eq
spec_reads = record {
  value = spec;
  low = omega arith;
  high = omega arith;
  held = refl;
  reads = (
    refl,
    (
      some (web_alias_spec.entries),
      record {
        value = web_alias_spec.entries;
        low = omega arith;
        high = omega arith;
        held = refl;
        reads = refl;
      },
      refl,
    ),
  );
}

deep_copy_object-Independent_example :
    Independent
      (object_shape H H-Copies ApiType.alias)
      m
      (some 2)
      (some value)
      (deep_copy_object H ApiType.alias (some 2) m)
deep_copy_object-Independent_example =
    deep_copy_object-Independent H H-Copies ApiType.alias m (some 2) (some value) alias_reads

deep_copy-Independent_example :
    Independent
      (part_shape H H-Copies alias_spec_type)
      m
      (some 3)
      (some web_alias_spec)
      (deep_copy H alias_spec_type (some 3) m)
deep_copy-Independent_example =
    deep_copy-Independent H H-Copies alias_spec_type m (some 3) (some web_alias_spec) spec_reads
