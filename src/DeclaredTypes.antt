-- ===== src/DeclaredTypes.antt =====
-- internal/vm/declared_type_runtime.go: the declared types at run time, their compatibility, and the
-- inference of type parameters at a call. A nil pointer is `absent`; the kinds without fields are
-- `basic`. The bindings are a state: an inference that fails leaves what it has bound.
pub mod Inference
use slug.Prelude.{
  ℕ, zero, suc, Bool, true, false, not, ◌&&◌, ◌||◌, ◌==◌, if◌then◌else◌, Option, none, some, List,
  [], ◌∷◌,
}
use slug.Prelude.Text.{Text, text_eq}

pub data BasicKind : Type 0 where
  nil_kind bool_kind num_kind str_kind bytes_kind sym_kind task_kind chan_kind : BasicKind

mutual
  pub data RtType : Type 0 where
    absent any : RtType
    basic : BasicKind → RtType
    type_param struct_type : Text → RtType
    list_type : RtType → RtType
    tuple_type : RtTypes → RtType
    map_type : RtType → RtType → RtType
    fn_type : RtType → RtTypes → Bool → RtType
    union_type : RtTypes → RtType

  pub data RtTypes : Type 0 where
    no_types : RtTypes
    type_and : RtType → RtTypes → RtTypes

abbrev pub kind_number : BasicKind → ℕ
kind_number nil_kind = 0
kind_number bool_kind = 1
kind_number num_kind = 2
kind_number str_kind = 3
kind_number bytes_kind = 4
kind_number sym_kind = 5
kind_number task_kind = 6
kind_number chan_kind = 7

abbrev pub same_kind : BasicKind → BasicKind → Bool
same_kind k j = kind_number k == kind_number j

abbrev pub is_empty : Text → Bool
is_empty [] = true
is_empty (c ∷ cs) = false

abbrev pub struct_names_match : Text → Text → Bool
struct_names_match actual expected = is_empty expected || is_empty actual || text_eq actual expected

unfoldable pub type_count : RtTypes → ℕ
type_count no_types = 0
type_count (type_and t ts) = suc (type_count ts)

abbrev pub no_bool_difference : Bool → Bool → Bool
no_bool_difference true b = b
no_bool_difference false b = not b

abbrev pub is_bare_fn : RtType → RtTypes → Bool
is_bare_fn absent no_types = true
is_bare_fn _ _ = false

-- runtimeDeclaredTypeCompatible, the actual type first. An expected union is reached only by an actual
-- union, since the kinds are compared before.
unfoldable mutual
  pub compatible : RtType → RtType → Bool
  compatible a absent = true
  compatible a any = true
  compatible a (type_param n) = true
  compatible a (basic k) = elim a [
    | absent ↦ true
    | any ↦ true
    | type_param n ↦ true
    | basic j ↦ same_kind j k
    | _ ↦ false
  ]
  compatible a (struct_type n) = elim a [
    | absent ↦ true
    | any ↦ true
    | type_param m ↦ true
    | struct_type m ↦ struct_names_match m n
    | _ ↦ false
  ]
  compatible a (list_type e) = elim a [
    | absent ↦ true
    | any ↦ true
    | type_param m ↦ true
    | list_type b ↦ compatible b e
    | _ ↦ false
  ]
  compatible a (tuple_type es) = elim a [
    | absent ↦ true
    | any ↦ true
    | type_param m ↦ true
    | tuple_type bs ↦ type_count bs == type_count es && all_compatible bs es
    | _ ↦ false
  ]
  compatible a (map_type k v) = elim a [
    | absent ↦ true
    | any ↦ true
    | type_param m ↦ true
    | map_type j w ↦ compatible j k && compatible w v
    | _ ↦ false
  ]
  compatible a (fn_type r ps variadic) = elim a [
    | absent ↦ true
    | any ↦ true
    | type_param m ↦ true
    | fn_type q bs other ↦
        is_bare_fn r ps
        || no_bool_difference other variadic
          && type_count bs == type_count ps
          && all_compatible bs ps
          && compatible q r
    | _ ↦ false
  ]
  compatible a (union_type os) = elim a [
    | absent ↦ true
    | any ↦ true
    | type_param m ↦ true
    | union_type bs ↦ some_compatible (union_type bs) os
    | _ ↦ false
  ]

  -- The loop over the positions of two lists of the same length.
  pub all_compatible : RtTypes → RtTypes → Bool
  all_compatible bs no_types = true
  all_compatible bs (type_and e es) = elim bs [
    | no_types ↦ true
    | type_and b rest ↦ compatible b e && all_compatible rest es
  ]

  pub some_compatible : RtType → RtTypes → Bool
  some_compatible a no_types = false
  some_compatible a (type_and e es) = compatible a e || some_compatible a es

-- The map of the bindings, the latest first.
abbrev pub Bindings : Type 0
Bindings = List (Text × RtType)

unfoldable pub lookup : Text → Bindings → Option RtType
lookup n [] = none
lookup n ((m, t) ∷ bindings) = if text_eq m n then some t else lookup n bindings

abbrev pub is_open : RtType → Bool
is_open absent = true
is_open (type_param n) = true
is_open _ = false

abbrev pub is_absent : RtType → Bool
is_absent absent = true
is_absent _ = false

-- The case of a type parameter.
unfoldable pub bind_param : Text → RtType → Bindings → Bindings × Bool
bind_param n a bindings = elim (lookup n bindings) [
  | some t ↦ (bindings, compatible a t && compatible t a)
  | none ↦ ((n, a) ∷ bindings, true)
]

abbrev pub infer_param : Text → RtType → Bindings → Bindings × Bool
infer_param n a bindings = if is_absent a then (bindings, true) else bind_param n a bindings

-- inferRuntimeTypeBindings
unfoldable mutual
  pub infer : RtType → RtType → Bindings → Bindings × Bool
  infer absent a b = (b, true)
  infer (type_param n) a b = infer_param n a b
  infer (union_type os) a b =
      let found = infer_some os a b in if is_open a then (b, true) else found
  infer any a b = elim a [
    | absent ↦ (b, true)
    | type_param m ↦ (b, true)
    | any ↦ (b, true)
    | _ ↦ (b, false)
  ]
  infer (basic k) a b = elim a [
    | absent ↦ (b, true)
    | type_param m ↦ (b, true)
    | basic j ↦ (b, same_kind k j)
    | _ ↦ (b, false)
  ]
  infer (struct_type n) a b = elim a [
    | absent ↦ (b, true)
    | type_param m ↦ (b, true)
    | struct_type m ↦ (b, struct_names_match m n)
    | _ ↦ (b, false)
  ]
  infer (list_type e) a b = elim a [
    | absent ↦ (b, true)
    | type_param m ↦ (b, true)
    | list_type c ↦ infer e c b
    | _ ↦ (b, false)
  ]
  infer (tuple_type es) a b = elim a [
    | absent ↦ (b, true)
    | type_param m ↦ (b, true)
    | tuple_type cs ↦
        (let out = infer_all es cs b in if type_count es == type_count cs then out else (b, false))
    | _ ↦ (b, false)
  ]
  infer (map_type k v) a b = elim a [
    | absent ↦ (b, true)
    | type_param m ↦ (b, true)
    | map_type j w ↦
        let (b', ok) = infer k j b in let out = infer v w b' in if ok then out else (b', false)
    | _ ↦ (b, false)
  ]
  infer (fn_type r ps variadic) a b = elim a [
    | absent ↦ (b, true)
    | type_param m ↦ (b, true)
    | fn_type q cs other ↦
        let (b', ok) = infer_all ps cs b in
        let out = infer r q b' in
        if no_bool_difference other variadic && type_count cs == type_count ps
        then (if ok then out else (b', false))
        else (b, false)
    | _ ↦ (b, false)
  ]

  pub infer_all : RtTypes → RtTypes → Bindings → Bindings × Bool
  infer_all no_types cs b = (b, true)
  infer_all (type_and e es) cs b = elim cs [
    | no_types ↦ (b, true)
    | type_and c rest ↦
        let (b', ok) = infer e c b in
        let out = infer_all es rest b' in if ok then out else (b', false)
  ]

  -- The options of a union are tried on a copy of the bindings.
  pub infer_some : RtTypes → RtType → Bindings → Bindings × Bool
  infer_some no_types a b = (b, false)
  infer_some (type_and e es) a b =
      let (trial, ok) = infer e a b in
      let rest = infer_some es a b in if ok then (trial, true) else rest

-- substituteRuntimeDeclaredType
abbrev pub present_or : RtType → RtType → RtType
present_or absent t = t
present_or v t = v

abbrev pub bound_or : Option RtType → RtType → RtType
bound_or none t = t
bound_or (some v) t = present_or v t

unfoldable mutual
  pub substitute : RtType → Bindings → RtType
  substitute absent b = absent
  substitute any b = any
  substitute (basic k) b = basic k
  substitute (type_param n) b = bound_or (lookup n b) (type_param n)
  substitute (struct_type n) b = struct_type n
  substitute (list_type e) b = list_type (substitute e b)
  substitute (tuple_type es) b = tuple_type (substitute_all es b)
  substitute (map_type k v) b = map_type (substitute k b) (substitute v b)
  substitute (fn_type r ps variadic) b = fn_type (substitute r b) (substitute_all ps b) variadic
  substitute (union_type os) b = union_type (substitute_all os b)

  pub substitute_all : RtTypes → Bindings → RtTypes
  substitute_all no_types b = no_types
  substitute_all (type_and e es) b = type_and (substitute e b) (substitute_all es b)

-- The loop of runtimeTypeBindingsFromCall, over the declared types of the parameters and the types of the
-- values. A parameter with no declared type, or a value with no type, is `absent`.
unfoldable pub bindings_from_call : List (RtType × RtType) → Bindings → Bindings
bindings_from_call [] b = b
bindings_from_call ((expected, actual) ∷ rest) b =
    let (trial, ok) = infer expected actual b in bindings_from_call rest (if ok then trial else b)
