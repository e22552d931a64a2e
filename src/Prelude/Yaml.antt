-- ===== src/Prelude/Yaml.antt =====
-- A parsed YAML document of any depth, for the scripts that walk through plays and tasks. The keys of
-- a dict are texts.
use Prim.Native.String.{String}
use mathlib.Core.Option.{Option, none, some}
use mathlib.Core.Bool.{Bool, true, false}
use ansible_platform.Prelude.Tests.{◌==◌, if◌then◌else◌}

-- `other` is `None` or a date.
mutual
  pub data Yaml : Type 0 where
    other number : Yaml
    text : String → Yaml
    list : Yamls → Yaml
    dict : Fields → Yaml

  pub data Yamls : Type 0 where
    nil : Yamls
    cons : Yaml → Yamls → Yamls

  pub data Fields : Type 0 where
    end : Fields
    field : String → Yaml → Fields → Fields

-- `mapping.get(key)`
unfoldable pub lookup : Fields → String → Option Yaml
lookup end k = none
lookup (field j v fs) k = if j == k then some v else lookup fs k

-- `key in mapping`
unfoldable pub has_key : Fields → String → Bool
unfolding lookup
has_key fs k = elim (lookup fs k) [ none ↦ false | some _ ↦ true ]
