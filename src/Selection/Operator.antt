-- ===== src/Selection/Operator.antt =====
-- apps/web/src/models/operator.ts: the selection that all pages share, its restoring and its saving.
-- `stored` is the local storage. A change of the state is one step with the effect that follows it.
use Prim.Native.Char.{code}
use Prim.Native.String.{String, [] as empty, ◌∷◌ as ◌∷s◌}
use montlok_terminal.Prelude.{
  ℕ, suc, Bool, true, false, not, ◌&&◌, ◌||◌, List, [], ◌∷◌, Option, none, some, if◌then◌else◌,
  ◌==◌, string_eq, nat_eq, leb,
}
use montlok_terminal.JsMap.{set}
use montlok_terminal.Selection.Storage.{RunSelection}
use montlok_terminal.Selection.Saving.{Browser, save_selection}

pub record Operator : Type 0 where
  pub selection : RunSelection
  pub selection_owner : String
  pub selection_edits : ℕ
  pub instrument_group : String
  pub instrument : String
  pub disposed : Bool
  pub stored : List (String × String)

abbrev pub default_selection : RunSelection
default_selection = record { selected_group = "live-sector-6040"; selected_runs = [] }

abbrev pub new_operator : List (String × String) → Operator
new_operator stored = record {
  selection = default_selection;
  selection_owner = "";
  selection_edits = 0;
  instrument_group = "";
  instrument = "";
  disposed = false;
  stored = stored;
}

-- `selectedInstrument`
unfoldable pub selected_instrument : Operator → String
selected_instrument s =
    if s.instrument_group == s.selection.selected_group then s.instrument else ""

abbrev is_name_character : ℕ → Bool
is_name_character c =
    (leb 97 c && leb c 122)
    || (leb 65 c && leb c 90)
    || (leb 48 c && leb c 57)
    || c == 95
    || c == 45

abbrev are_name_characters : String → Bool
are_name_characters empty = true
are_name_characters (c ∷s s) =
    let rest = are_name_characters s in is_name_character (code c) && rest

abbrev characters : String → ℕ
characters empty = 0
characters (c ∷s s) = suc (characters s)

-- `/^[a-zA-Z0-9_-]{1,limit}$/`
unfoldable pub is_name : ℕ → String → Bool
is_name limit s = not (s == "") && leb (characters s) limit && are_name_characters s

abbrev runs_of : Option RunSelection → List (String × String)
runs_of none = []
runs_of (some saved) = saved.selected_runs

abbrev link_run : List (String × String) → String → Option String → List (String × String)
link_run runs group none = runs
link_run runs group (some run) = if is_name 128 run then set runs group run else runs

-- `linked`: the group and the run of the address, else what was saved
unfoldable pub linked : Option RunSelection → Option String → Option String → Option RunSelection
linked saved none run = saved
linked saved (some group) run =
    if is_name 96 group
    then some
        (record { selected_group = group; selected_runs = link_run (runs_of saved) group run })
    else saved

abbrev restored_onto : ℕ → RunSelection → Option RunSelection → RunSelection
restored_onto edits current none = current
restored_onto edits current (some restored) = if edits == 0 then restored else current

pub data Event : Type 0 where
  sets_group : (String → String) → Event
  sets_runs : (List (String × String) → List (String × String)) → Event
  sets_instrument : String → Event
  -- the validation of the linked or saved selection ends
  validated : String → Option RunSelection → Event
  unmounted : Event

module _ (browser : Browser) where
  -- the effect `[selectionOwner, selection]`
  unfoldable pub save : Operator → Operator
  save s =
      if s.selection_owner == ""
      then s
      else record s { stored = save_selection browser s.stored s.selection_owner s.selection }

  unfoldable pub set_selected_group : Operator → (String → String) → Operator
  set_selected_group s value = save (record s {
    selection_edits = suc s.selection_edits;
    selection = record (s.selection) { selected_group = value s.selection.selected_group };
  })

  unfoldable pub set_selected_runs :
      Operator → (List (String × String) → List (String × String)) → Operator
  set_selected_runs s value = save (record s {
    selection_edits = suc s.selection_edits;
    selection = record (s.selection) { selected_runs = value s.selection.selected_runs };
  })

  -- what follows `validateSelection`
  unfoldable pub restore : Operator → String → Option RunSelection → Operator
  restore s operator restored =
      if s.disposed
      then s
      else save (record s {
        selection = restored_onto s.selection_edits s.selection restored;
        selection_owner = operator;
      })

  unfoldable pub step : Operator → Event → Operator
  step s (sets_group value) = set_selected_group s value
  step s (sets_runs value) = set_selected_runs s value
  step s (sets_instrument instrument) = record s {
    instrument_group = s.selection.selected_group;
    instrument = instrument;
  }
  step s (validated operator restored) = restore s operator restored
  step s unmounted = record s { disposed = true }

  unfoldable pub run : Operator → List Event → Operator
  run s [] = s
  run s (e ∷ es) = run (step s e) es
