-- ===== src/GtkProcessTab/Columns.antt =====
-- The columns of src/ui/gtk/process_tab.c: those of the list store, those of the view, and what the callbacks write
-- into the store.
use Prim.Native.String.{String}
use clueless_task_manager.Base.{
  get_or, listed, ℕ, ◌<◌, ◌≡◌, refl, Bool, true, false, List, [], ◌∷◌, arith, if◌then◌else◌,
}
use mathlib.Core.List.{map}
use clueless_task_manager.Process.{Process}
use clueless_task_manager.GtkProcessTab.{Toolkit}

-- `COL_PID` and the others, and `NUM_COLS`
abbrev pub col_pid : ℕ
col_pid = 0

abbrev pub col_name : ℕ
col_name = 1

abbrev pub col_state : ℕ
col_state = 2

abbrev pub col_active : ℕ
col_active = 3

abbrev pub num_cols : ℕ
num_cols = 4

-- the `GType` of a column
pub data ColumnType : Type 0 where
  type_uint type_string type_boolean no_type : ColumnType

-- `ProcessColumn`; the alignment is 0 or 1 of `float`.
pub record ProcessColumn : Type 0 where
  pub name : String
  pub type : ColumnType
  pub visible : Bool
  pub expandable : Bool
  pub alignment : ℕ

-- `columns` of `process_tab_create`
abbrev pub columns : List ProcessColumn
columns =
    record { name = "PID"; type = type_uint; visible = true; expandable = false; alignment = 1 }
    ∷ record {
      name = "Image Name";
      type = type_string;
      visible = true;
      expandable = true;
      alignment = 0;
    }
    ∷ record {
      name = "State";
      type = type_string;
      visible = true;
      expandable = false;
      alignment = 0;
    }
    ∷ record {
      name = "Active";
      type = type_boolean;
      visible = false;
      expandable = false;
      alignment = 0;
    }
    ∷ []

-- `VISUAL_ORDER`
abbrev pub visual_order : List ℕ
visual_order = col_name ∷ col_pid ∷ []

-- A column of the view: its title, the column of the store that it reads, and its look.
pub record ViewColumn : Type 0 where
  pub title : String
  pub text : ℕ
  pub resizable : Bool
  pub xalign : ℕ
  pub expand : Bool

-- beyond the last column
abbrev outside : ProcessColumn
outside = record { name = ""; type = no_type; visible = false; expandable = false; alignment = 0 }

-- The loop of `process_tab_create` over the visual order.
unfoldable pub append_columns : List ℕ → List ViewColumn
append_columns [] = []
append_columns (model_index ∷ order) =
    let column_definition = get_or columns model_index outside in
    let rest = append_columns order in
    if column_definition.visible
    then record {
      title = column_definition.name;
      text = model_index;
      resizable = true;
      xalign = column_definition.alignment;
      expand = column_definition.expandable;
    }
      ∷ rest
    else rest

-- what is written into a cell
pub data Value : Type 0 where
  uint_value : ℕ → Value
  string_value : List ℕ → Value

abbrev type_of : Value → ColumnType
type_of (uint_value n) = type_uint
type_of (string_value s) = type_string

-- The arguments of `gtk_list_store_set` for a new process, and for one that was read again.
pub added_cells : Toolkit → Process → List (ℕ × Value)
added_cells T p =
    (col_pid, uint_value (T.get_pid p))
    ∷ (col_name, string_value (T.get_name p))
    ∷ (col_state, string_value (T.get_state p))
    ∷ []

pub updated_cells : Toolkit → Process → List (ℕ × Value)
updated_cells T p =
    (col_name, string_value (T.get_name p)) ∷ (col_state, string_value (T.get_state p)) ∷ []

-- each cell is in a column that there is, and has its type
abbrev pub Fit : List (ℕ × Value) → Type 0
Fit [] = Unit {0}
Fit ((i, v) ∷ cells) = (i < num_cols) × (type_of v ≡ (get_or columns i outside).type) × Fit cells

-- each of these columns of the view reads a cell that is written
abbrev pub Written : List (ℕ × Value) → List ViewColumn → Type 0
Written cells [] = Unit {0}
Written cells (c ∷ view) =
    (listed c.text (map (λ (cell : ℕ × Value). cell.0) cells) ≡ true) × Written cells view

-- Whatever process a row is added or updated for, each value goes into a column of its own type, and each
-- column of the view reads one that was written when the row was added.
pub cells-Fit :
    (T : Toolkit) (p : Process)
    → Fit (added_cells T p)
      × Fit (updated_cells T p)
      × Written (added_cells T p) (append_columns visual_order)
unfolding added_cells updated_cells append_columns listed
cells-Fit T p = (
  (omega arith, refl, (omega arith, refl, (omega arith, refl, tt))),
  (omega arith, refl, (omega arith, refl, tt)),
  (refl, (refl, tt)),
)
