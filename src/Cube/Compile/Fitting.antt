-- ===== src/Cube/Compile/Fitting.antt =====
-- What the compiler asks of Exe is answered with objects that Exe has.
use toyhoodle.Prelude.{
  ℕ, ◌≤◌, ◌<◌, Bool, true, false, Option, none, some, List, [], ◌∷◌, ◌++◌, arith, length, get_elem?,
  length-append,
}
use toyhoodle.Cube.ParamChange.{Text}
use toyhoodle.Cube.Text.{codes, trim}
use toyhoodle.Cube.Compile.Names.{
  DataType, Exe, built, wrong, element, get_params, data_type, put_param, put_data_base,
  get_connection, first_piece, query_name, query_header, foreach_header, put_assignment,
  put_param_named, put_param_line, put_data_source, Failure,
}
use toyhoodle.Cube.Compile.Addresses.{
  IsAddress, AreAddresses, IsValid, raise-AreNames, HasObjects, Fits, bind_Fits, fitting, Anything,
  get_param-Fits,
}

get_params-Fits :
    (names : List Text) (x : Exe) (n : ℕ)
    → HasObjects x
    → n ≤ length x.store
    → Fits AreAddresses n (get_params names x)
unfolding get_params
get_params-Fits [] x n h le = fitting _ n _ x h le tt
get_params-Fits (name ∷ names) x n h le =
    bind_Fits (λ k a. a < k) _ _ n _ _ (get_param-Fits name x n h le)
      λ a y hy ly below.
        bind_Fits AreAddresses _ _ n _ _ (get_params-Fits names y (length y.store) hy (omega arith))
          λ numbers z hz lz all. fitting _ n _ z hz (omega arith) (omega arith, all)

element-Fits :
    (vs : List Text) (i : ℕ) (x : Exe) (n : ℕ)
    → HasObjects x
    → n ≤ length x.store
    → Fits Anything n (element vs i x)
unfolding element
element-Fits vs i x n h le = go (get_elem? vs i)
  where
    go :
        (o : Option Text)
        → Fits Anything n (elim o [ none ↦ wrong Failure.index_out_of_bounds | some v ↦ built v x ])
    go none = record { fits = tt }
    go (some v) = record { fits = (h, le, tt) }

put_param-Fits :
    (name type : Text) (x : Exe) (n : ℕ)
    → HasObjects x
    → n ≤ length x.store
    → Fits Anything n (put_param name type x)
unfolding put_param
put_param-Fits name type x n h le = go (data_type (trim type))
  where
    go :
        (o : Option DataType)
        → Fits Anything n (elim o [
          | none ↦ wrong Failure.not_type
          | some t ↦ built tt (record x {
            store = x.store ++ (t ∷ []);
            params = (trim name, length x.store) ∷ x.params;
          })
        ])
    go none = record { fits = tt }
    go (some t) =
        let longer = length-append x.store (t ∷ []) in
        record { fits = ((omega arith, raise-AreNames x.params (omega arith) h), omega arith, tt) }

query_name-Fits :
    (pieces : List Text) (x : Exe) (n : ℕ)
    → HasObjects x
    → n ≤ length x.store
    → Fits IsAddress n (query_name pieces x)
unfolding query_name
query_name-Fits [] x n h le = fitting _ n _ x h le tt
query_name-Fits (source ∷ []) x n h le = fitting _ n _ x h le tt
query_name-Fits (source ∷ name ∷ []) x n h le =
    bind_Fits Anything _ _ n _ _ (put_param-Fits name (codes "table") x n h le) λ u y hy ly any.
      bind_Fits (λ k a. a < k) _ _ n _ _ (get_param-Fits name y n hy ly)
        λ a z hz lz below. fitting _ n _ z hz lz below
query_name-Fits (source ∷ name ∷ more ∷ pieces) x n h le = fitting _ n _ x h le tt

first_piece-Fits :
    (pieces : List Text) (x : Exe) (n : ℕ)
    → HasObjects x
    → n ≤ length x.store
    → Fits Anything n (first_piece pieces x)
unfolding first_piece
first_piece-Fits [] x n h le = record { fits = tt }
first_piece-Fits (source ∷ pieces) x n h le = fitting _ n _ x h le tt

pub query_header-Fits :
    (line : Text) (x : Exe) (n : ℕ)
    → HasObjects x
    → n ≤ length x.store
    → Fits (λ k header. IsAddress k header.1) n (query_header line x)
unfolding query_header get_connection
query_header-Fits line x n h le =
    bind_Fits Anything _ _ n _ _ (first_piece-Fits _ x n h le) λ source y hy ly any.
      bind_Fits IsAddress _ _ n _ _ (query_name-Fits _ y n hy ly)
        λ name z hz lz below. fitting _ n _ z hz lz below

pub foreach_header-Fits :
    (line : Text) (x : Exe) (n : ℕ)
    → HasObjects x
    → n ≤ length x.store
    → Fits (λ k header. (header.0 < k) × AreAddresses k header.1) n (foreach_header line x)
unfolding foreach_header
foreach_header-Fits line x n h le =
    bind_Fits Anything _ _ n _ _ (element-Fits _ _ x n h le) λ name x1 h1 l1 any.
      bind_Fits (λ k a. a < k) _ _ n _ _ (get_param-Fits name x1 n h1 l1)
        λ a x2 h2 l2 below.
          bind_Fits Anything _ _ n _ _ (element-Fits _ _ x2 (length x2.store) h2 (omega arith))
            λ names x3 h3 l3 any.
              bind_Fits AreAddresses _ _ n _ _
                (get_params-Fits _ x3 (length x3.store) h3 (omega arith))
                λ numbers x4 h4 l4 all. fitting _ n _ x4 h4 (omega arith) (omega arith, all)

pub put_assignment-Fits :
    (line : Text) (x : Exe) (n : ℕ)
    → HasObjects x
    → n ≤ length x.store
    → Fits IsValid n (put_assignment line x)
unfolding put_assignment
put_assignment-Fits line x n h le =
    bind_Fits Anything _ _ n _ _ (element-Fits _ _ x n h le) λ name x1 h1 l1 any.
      bind_Fits (λ k a. a < k) _ _ n _ _ (get_param-Fits _ x1 n h1 l1)
        λ a x2 h2 l2 below.
          bind_Fits Anything _ _ n _ _ (element-Fits _ _ x2 (length x2.store) h2 (omega arith))
            λ v x3 h3 l3 any. fitting _ n _ x3 h3 (omega arith) (omega arith)

put_param_named-Fits :
    (is_at : Bool) (line : Text) (x : Exe) (n : ℕ)
    → HasObjects x
    → n ≤ length x.store
    → Fits Anything n (put_param_named is_at line x)
unfolding put_param_named
put_param_named-Fits false line x n h le = record { fits = tt }
put_param_named-Fits true line x n h le =
    bind_Fits Anything _ _ n _ _ (element-Fits _ _ x n h le) λ name x1 h1 l1 any.
      bind_Fits Anything _ _ n _ _ (element-Fits _ _ x1 n h1 l1)
        λ type x2 h2 l2 any. put_param-Fits name type x2 n h2 l2

pub put_param_line-Fits :
    (line : Text) (x : Exe) (n : ℕ)
    → HasObjects x
    → n ≤ length x.store
    → Fits Anything n (put_param_line line x)
unfolding put_param_line
put_param_line-Fits line x n h le = put_param_named-Fits _ line x n h le

put_data_base-Fits :
    (connect : Text → Text → Option ℕ) (name url driver : Text) (x : Exe) (n : ℕ)
    → HasObjects x
    → n ≤ length x.store
    → Fits Anything n (put_data_base connect name url driver x)
unfolding put_data_base
put_data_base-Fits connect name url driver x n h le = go (connect (trim url) (trim driver))
  where
    go :
        (o : Option ℕ)
        → Fits Anything n (elim o [
          | none ↦ wrong Failure.no_connection
          | some a ↦ built tt (record x { connections = (trim name, a) ∷ x.connections })
        ])
    go none = record { fits = tt }
    go (some a) = record { fits = (h, le, tt) }

pub put_data_source-Fits :
    (connect : Text → Text → Option ℕ) (line : Text) (x : Exe) (n : ℕ)
    → HasObjects x
    → n ≤ length x.store
    → Fits Anything n (put_data_source connect line x)
unfolding put_data_source
put_data_source-Fits connect line x n h le =
    bind_Fits Anything _ _ n _ _ (element-Fits _ _ x n h le) λ name x1 h1 l1 any.
      bind_Fits Anything _ _ n _ _ (element-Fits _ _ x1 n h1 l1) λ url x2 h2 l2 any.
        bind_Fits Anything _ _ n _ _ (element-Fits _ _ x2 n h2 l2)
          λ driver x3 h3 l3 any. put_data_base-Fits connect name url driver x3 n h3 l3
