-- ===== src/Memory/Objects.antt =====
-- The objects of the heap, with what each refers to (cyarg/memory.c: blackenObject and the functions
-- that it calls; the structs stand in yargobject.h, ast.h, routine.h and others). A pointer is an
-- address, and 0 is NULL.
use yarg_lang.Prelude.{ℕ, List, [], ◌∷◌, ◌++◌, Option, none, some}
use yarg_lang.Channel.{Channel, contents}
use yarg_lang.Table.{Entry, vacant, tombstone, held}

-- A value: the object that it holds, which is NULL where it holds none, and its type.
pub record ValueRef : Type 0 where
  pub held_object : ℕ
  pub type_pointer : ℕ

pub record CellRef : Type 0 where
  pub value : ValueRef
  pub cell_type : ℕ

pub record DynamicObjArray : Type 0 where
  pub stash : ℕ
  pub objects : List ℕ

pub record DynamicValueArray : Type 0 where
  pub value_stash : ValueRef
  pub values : List ValueRef

pub record FunctionRefs : Type 0 where
  pub f_name : ℕ
  pub constants : DynamicValueArray

-- The stack from its bottom, the closures of the frames, and the open upvalues in their list.
pub record RoutineRefs : Type 0 where
  pub stack : List CellRef
  pub frames : List ℕ
  pub open_upvalues : List ℕ
  pub additional_slices : DynamicObjArray
  pub runtime_errors : DynamicObjArray
  pub entry_function : ℕ
  pub entry_arg : ValueRef
  pub result : ValueRef
  pub error : ValueRef

abbrev pub value_references : ValueRef → List ℕ
value_references v = v.held_object ∷ v.type_pointer ∷ []

abbrev pub cell_references : CellRef → List ℕ
cell_references c = value_references c.value ++ (c.cell_type ∷ [])

abbrev pub flat {ℓ} : {A : Type ℓ} → (A → List ℕ) → List A → List ℕ
flat f [] = []
flat f (x ∷ xs) = f x ++ flat f xs

abbrev pub obj_array_references : DynamicObjArray → List ℕ
obj_array_references a = a.stash ∷ a.objects

abbrev pub value_array_references : DynamicValueArray → List ℕ
value_array_references a = flat value_references a.values ++ value_references a.value_stash

abbrev pub entry_references : Entry ValueRef → List ℕ
entry_references vacant = []
entry_references tombstone = []
entry_references (held k v) = k ∷ value_references v

abbrev pub table_references : List (Entry ValueRef) → List ℕ
table_references es = flat entry_references es

abbrev pub function_references : FunctionRefs → List ℕ
function_references f = f.f_name ∷ value_array_references f.constants

abbrev pub routine_references : RoutineRefs → List ℕ
routine_references r =
    flat cell_references r.stack
    ++ (r.frames
        ++ (r.open_upvalues
            ++ (obj_array_references r.additional_slices
                ++ (obj_array_references r.runtime_errors
                    ++ (r.entry_function
                        ∷ (value_references r.entry_arg
                            ++ (value_references r.result ++ value_references r.error)))))))

abbrev pub packed_reference : Option ValueRef → List ℕ
packed_reference none = []
packed_reference (some v) = value_references v

abbrev pub packed_references : List (Option ValueRef) → List ℕ
packed_references vs = flat packed_reference vs

-- Objects of the language and of the machine.
pub data RuntimeObject : Type 0 where
  bound_method : (receiver : ValueRef) (method : ℕ) → RuntimeObject
  class_object : (name : ℕ) (methods : List (Entry ValueRef)) → RuntimeObject
  closure : (function : ℕ) (upvalues : List ℕ) → RuntimeObject
  function_object : (body : FunctionRefs) → RuntimeObject
  instance : (klass : ℕ) (fields : List (Entry ValueRef)) → RuntimeObject
  upvalue : (closed : CellRef) → RuntimeObject
  routine_object : (routine : RoutineRefs) → RuntimeObject
  packed_storage : (values : List (Option ValueRef)) → RuntimeObject
  packed_container : (storage : ℕ) → RuntimeObject
  unowned_packed_container : RuntimeObject
  native : RuntimeObject
  builtin : RuntimeObject
  channel_container : (channel : Channel ValueRef) → RuntimeObject
  string_object : RuntimeObject
  int_object : RuntimeObject
  map_object : (type : ℕ) (entries : List (Entry ValueRef)) → RuntimeObject
  yarg_type : RuntimeObject
  yarg_type_array : (element_type : ℕ) → RuntimeObject
  yarg_type_struct : (field_names : List (Entry ValueRef)) (field_types : List ℕ) → RuntimeObject
  yarg_type_pointer : (target_type : ℕ) → RuntimeObject
  yarg_type_map : (key_type : ℕ) (value_type : ℕ) → RuntimeObject
  sync_group : (channel_array : ValueRef) (result_array : ValueRef) → RuntimeObject
  stack_slice : RuntimeObject
  ast : (statements : ℕ) → RuntimeObject
  place_alias : (name : ℕ) (location : ℕ) → RuntimeObject
  scanner_object : (source : ℕ) → RuntimeObject
  parser_object :
      (ast_root : ℕ) (prev_expr : ℕ) (scanner : ℕ) (context : ℕ) (errors : DynamicObjArray)
      → RuntimeObject

-- Statements; `stmt_expression` is also one of yield, return, print and error.
pub data Statement : Type 0 where
  stmt_expression : (next_stmt : ℕ) (expression : ℕ) → Statement
  stmt_poke : (next_stmt : ℕ) (location : ℕ) (offset : ℕ) (assignment : ℕ) → Statement
  stmt_var_declaration : (next_stmt : ℕ) (name : ℕ) (type : ℕ) (initialiser : ℕ) → Statement
  stmt_field_declaration : (next_stmt : ℕ) (name : ℕ) (type : ℕ) (offset : ℕ) → Statement
  stmt_place_declaration : (next_stmt : ℕ) (type : ℕ) (aliases : DynamicObjArray) → Statement
  stmt_block : (next_stmt : ℕ) (statements : ℕ) → Statement
  stmt_if : (next_stmt : ℕ) (test : ℕ) (if_stmt : ℕ) (else_stmt : ℕ) → Statement
  stmt_fun_declaration :
      (next_stmt : ℕ) (name : ℕ) (body : ℕ) (parameters : DynamicObjArray) → Statement
  stmt_while : (next_stmt : ℕ) (test : ℕ) (loop : ℕ) → Statement
  stmt_for :
      (next_stmt : ℕ) (condition : ℕ) (initializer : ℕ) (loop_expression : ℕ) (body : ℕ) → Statement
  stmt_class_declaration :
      (next_stmt : ℕ) (name : ℕ) (superclass : ℕ) (methods : DynamicObjArray) → Statement

-- Expressions; `expr_leaf` is one with no reference of its own.
pub data Expression : Type 0 where
  expr_leaf : (next_expr : ℕ) → Expression
  expr_operation : (next_expr : ℕ) (rhs : ℕ) (assignment : ℕ) → Expression
  expr_grouping : (next_expr : ℕ) (expression : ℕ) → Expression
  expr_named_variable : (next_expr : ℕ) (assignment : ℕ) (name : ℕ) → Expression
  expr_string : (next_expr : ℕ) (string : ℕ) → Expression
  expr_call : (next_expr : ℕ) (arguments : DynamicObjArray) → Expression
  expr_collection_initializer :
      (next_expr : ℕ) (initializers : DynamicObjArray) (cardinality : ℕ) → Expression
  expr_collection_element : (next_expr : ℕ) (element : ℕ) (assignment : ℕ) → Expression
  expr_dot : (next_expr : ℕ) (name : ℕ) (assignment : ℕ) (offset : ℕ) (call : ℕ) → Expression
  expr_super : (next_expr : ℕ) (name : ℕ) (call : ℕ) → Expression
  expr_type_struct : (next_expr : ℕ) (fields_by_index : DynamicValueArray) → Expression
  expr_type_indexed_collection : (next_expr : ℕ) (indexing : ℕ) → Expression
  expr_pair : (next_expr : ℕ) (a : ℕ) (b : ℕ) → Expression

pub data Object : Type 0 where
  of_runtime : RuntimeObject → Object
  of_statement : Statement → Object
  of_expression : Expression → Object

abbrev pub null_ref : ValueRef
null_ref = record { held_object = 0; type_pointer = 0 }

-- The number of values of `size_t`, for the cursor of a channel.
module _ (word : ℕ) where
  abbrev pub channel_references : Channel ValueRef → List ℕ
  channel_references ch = flat value_references (contents word null_ref ch)

  unfoldable pub runtime_references : RuntimeObject → List ℕ
  runtime_references (bound_method receiver method) = value_references receiver ++ (method ∷ [])
  runtime_references (class_object name methods) = name ∷ (table_references methods)
  runtime_references (closure function upvalues) = function ∷ upvalues
  runtime_references (function_object body) = function_references body
  runtime_references (instance klass fields) = klass ∷ (table_references fields)
  runtime_references (upvalue closed) = cell_references closed
  runtime_references (routine_object routine) = routine_references routine
  runtime_references (packed_storage values) = packed_references values
  runtime_references (packed_container storage) = storage ∷ []
  runtime_references unowned_packed_container = []
  runtime_references native = []
  runtime_references builtin = []
  runtime_references (channel_container channel) = channel_references channel
  runtime_references string_object = []
  runtime_references int_object = []
  runtime_references (map_object type_ entries) = type_ ∷ (table_references entries)
  runtime_references yarg_type = []
  runtime_references (yarg_type_array element_type) = element_type ∷ []
  runtime_references (yarg_type_struct field_names field_types) =
      table_references field_names ++ (field_types)
  runtime_references (yarg_type_pointer target_type) = target_type ∷ []
  runtime_references (yarg_type_map key_type value_type) = key_type ∷ value_type ∷ []
  runtime_references (sync_group channel_array result_array) =
      value_references channel_array ++ (value_references result_array)
  runtime_references stack_slice = []
  runtime_references (ast statements) = statements ∷ []
  runtime_references (place_alias name location) = name ∷ location ∷ []
  runtime_references (scanner_object source) = source ∷ []
  runtime_references (parser_object ast_root prev_expr scanner context errors) =
      ast_root ∷ prev_expr ∷ scanner ∷ context ∷ (obj_array_references errors)

unfoldable pub statement_references : Statement → List ℕ
statement_references (stmt_expression next_stmt expression) = next_stmt ∷ expression ∷ []
statement_references (stmt_poke next_stmt location offset assignment) =
    next_stmt ∷ location ∷ offset ∷ assignment ∷ []
statement_references (stmt_var_declaration next_stmt name type_ initialiser) =
    next_stmt ∷ name ∷ type_ ∷ initialiser ∷ []
statement_references (stmt_field_declaration next_stmt name type_ offset) =
    next_stmt ∷ name ∷ type_ ∷ offset ∷ []
statement_references (stmt_place_declaration next_stmt type_ aliases) =
    next_stmt ∷ type_ ∷ (obj_array_references aliases)
statement_references (stmt_block next_stmt statements) = next_stmt ∷ statements ∷ []
statement_references (stmt_if next_stmt test if_stmt else_stmt) =
    next_stmt ∷ test ∷ if_stmt ∷ else_stmt ∷ []
statement_references (stmt_fun_declaration next_stmt name body parameters) =
    next_stmt ∷ name ∷ body ∷ (obj_array_references parameters)
statement_references (stmt_while next_stmt test loop) = next_stmt ∷ test ∷ loop ∷ []
statement_references (stmt_for next_stmt condition initializer loop_expression body) =
    next_stmt ∷ condition ∷ initializer ∷ loop_expression ∷ body ∷ []
statement_references (stmt_class_declaration next_stmt name superclass methods) =
    next_stmt ∷ name ∷ superclass ∷ (obj_array_references methods)

unfoldable pub expression_references : Expression → List ℕ
expression_references (expr_leaf next_expr) = next_expr ∷ []
expression_references (expr_operation next_expr rhs assignment) = next_expr ∷ rhs ∷ assignment ∷ []
expression_references (expr_grouping next_expr expression) = next_expr ∷ expression ∷ []
expression_references (expr_named_variable next_expr assignment name) =
    next_expr ∷ assignment ∷ name ∷ []
expression_references (expr_string next_expr string_) = next_expr ∷ string_ ∷ []
expression_references (expr_call next_expr arguments) = next_expr ∷ (obj_array_references arguments)
expression_references (expr_collection_initializer next_expr initializers cardinality) =
    next_expr ∷ obj_array_references initializers ++ (cardinality ∷ [])
expression_references (expr_collection_element next_expr element assignment) =
    next_expr ∷ element ∷ assignment ∷ []
expression_references (expr_dot next_expr name assignment offset call) =
    next_expr ∷ name ∷ assignment ∷ offset ∷ call ∷ []
expression_references (expr_super next_expr name call) = next_expr ∷ name ∷ call ∷ []
expression_references (expr_type_struct next_expr fields_by_index) =
    next_expr ∷ (value_array_references fields_by_index)
expression_references (expr_type_indexed_collection next_expr indexing) = next_expr ∷ indexing ∷ []
expression_references (expr_pair next_expr a b) = next_expr ∷ a ∷ b ∷ []

-- The cases of `blackenObject`: what it marks, in order.
unfoldable pub references : ℕ → Object → List ℕ
references word (of_runtime o) = runtime_references word o
references word (of_statement s) = statement_references s
references word (of_expression e) = expression_references e
