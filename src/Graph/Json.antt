-- ===== src/Graph/Json.antt =====
-- JSON as Go's encoding/json reads it (used by Go/internal/graph/node.go and edge.go). An object has at most
-- one key for a field, so the order of its members does not matter.
use share_hound.Prelude.{Bool, [], Option, none, some, if◌then◌else◌}
use share_hound.Prelude.Int.{ℤ}
use share_hound.Prelude.Text.{Text, eqb, to_lower}

mutual
  pub data Json : Type 0 where
    null : Json
    boolean : Bool → Json
    number : ℤ → Json
    string : Text → Json
    array : Items → Json
    object : Members → Json

  pub data Items : Type 0 where
    no_items : Items
    item : Json → Items → Items

  pub data Members : Type 0 where
    no_members : Members
    member : Text → Json → Members → Members

-- What the text that encoding/json writes is read back as: a string, in which a byte that is not valid
-- UTF-8 is replaced, and a whole number, which becomes a float64. A float64 stands here as the number that
-- is written for it.
pub record Encoding : Type 0 where
  pub read_text : Text → Text
  pub read_number : ℤ → ℤ

module _ (enc : Encoding) where
  unfoldable mutual
    -- A value that is written and read back.
    pub reread : Json → Json
    reread null = null
    reread (boolean b) = boolean b
    reread (number z) = number (enc.read_number z)
    reread (string t) = string (enc.read_text t)
    reread (array xs) = array (reread_items xs)
    reread (object ms) = object (reread_members ms)

    pub reread_items : Items → Items
    reread_items no_items = no_items
    reread_items (item x xs) = item (reread x) (reread_items xs)

    pub reread_members : Members → Members
    reread_members no_members = no_members
    reread_members (member k x ms) = member (enc.read_text k) (reread x) (reread_members ms)

-- The member for a field of a struct, whose key is written in any case.
unfoldable pub field : Text → Members → Option Json
field name no_members = none
field name (member k x ms) =
    let rest = field name ms in if eqb (to_lower k) name then some x else rest

-- A member into a field that is a string: `none` is an error.
unfoldable pub string_in : Option Json → Option Text
string_in none = some []
string_in (some null) = some []
string_in (some (string t)) = some t
string_in (some _) = none
