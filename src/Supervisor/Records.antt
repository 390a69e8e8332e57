-- ===== src/Supervisor/Records.antt =====
-- The classification of stream records, of supervisor/strategy_supervisor.py.
use trading_strands.Prelude.{
  String, Bool, true, false, not, Option, none, some, [], ◌∷◌, ◌==◌, if◌then◌else◌,
}
use trading_strands.Prelude.Dict.{Dict, get}
use trading_strands.Supervisor.Names.{is_strategy, remove_prefix}

pub data Action : Type 0 where
  noop ensure_running pause stop : Action

pub record Decision : Type 0 where
  pub action : Action
  pub strategy_id : Option String
  pub org_id : Option String

-- an attribute value: `{"S": ...}`, `{"N": ...}`, or anything else
pub data Attribute : Type 0 where
  text number : String → Attribute
  other : Attribute

abbrev pub Image : Type 0
Image = Dict Attribute

-- a record; an image that is absent is the empty one
pub record StreamRecord : Type 0 where
  pub event_name : String
  pub new_image : Image
  pub old_image : Image

attribute_text : Option Attribute → String
attribute_text none = ""
attribute_text (some (text s)) = s
attribute_text (some (number s)) = s
attribute_text (some other) = ""

unfoldable pub unwrap : Image → String → String
unfolding attribute_text
unwrap image key = attribute_text (get image key)

-- `not image`
abbrev pub is_empty : Image → Bool
is_empty [] = true
is_empty (x ∷ xs) = false

-- `new_image or old_image`
unfoldable pub image_of : StreamRecord → Image
image_of r = if is_empty r.new_image then r.old_image else r.new_image

unfoldable pub strategy_id_of : Image → String
strategy_id_of image =
    if unwrap image "strategy_id" == ""
    then remove_prefix (unwrap image "pk")
    else unwrap image "strategy_id"

unfoldable pub org_id_of : Image → Option String
org_id_of image = if unwrap image "org_id" == "" then none else some (unwrap image "org_id")

-- the action on an update, from the status before and after
unfoldable pub modify_action : String → String → Action
modify_action old_status new_status =
    if old_status == new_status
    then noop
    else if new_status == "active"
    then ensure_running
    else if new_status == "paused"
    then pause
    else if new_status == "stopped"
    then stop
    else noop

-- the action on the row of a strategy
unfoldable pub row_action : StreamRecord → Action
unfolding modify_action
row_action r =
    if r.event_name == "REMOVE"
    then stop
    else if r.event_name == "INSERT"
    then if unwrap r.new_image "status" == "active" then ensure_running else noop
    else if r.event_name == "MODIFY"
    then if is_empty r.old_image
      then noop
      else modify_action (unwrap r.old_image "status") (unwrap r.new_image "status")
    else noop

unfoldable pub classify_record : StreamRecord → Decision
unfolding image_of strategy_id_of org_id_of row_action
classify_record r =
    let image = image_of r in
    if not (is_strategy (unwrap image "pk"))
    then record { action = noop; strategy_id = none; org_id = none }
    else record {
      action = row_action r;
      strategy_id = some (strategy_id_of image);
      org_id = org_id_of image;
    }
