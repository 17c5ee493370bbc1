-- ===== src/Query/Types.antt =====
-- The data of src/source/db/query.rs and query_dto.rs. A 64-bit integer or float that is only
-- carried into a bind is its bit pattern.
use gaze_lens.Prelude.{ℕ, Bool, ℕ_eq, Text-eq, Text, List, Option}

pub record ColumnInfo : Type 0 where
  pub name : Text
  pub data_type : Text
  pub nullable : Bool
  pub allowed : Bool

pub record TableSchema : Type 0 where
  pub table : Text
  pub columns : List ColumnInfo
  pub limit_cap : Option ℕ

pub data WhereOp : Type 0 where
  eq ne gt gte lt lte in_list like is_null is_not_null : WhereOp

pub data WhereCombinator : Type 0 where
  and_all or_any : WhereCombinator

pub data OrderDir : Type 0 where
  asc desc : OrderDir

pub data ScalarValue : Type 0 where
  string : Text → ScalarValue
  i64 u64 f64 : ℕ → ScalarValue
  bool : Bool → ScalarValue
  null : ScalarValue

pub data ScalarOrList : Type 0 where
  scalar : ScalarValue → ScalarOrList
  list : List ScalarValue → ScalarOrList

pub record WhereClause : Type 0 where
  pub col : Text
  pub op : WhereOp
  pub val : Option ScalarOrList

pub record OrderBy : Type 0 where
  pub col : Text
  pub dir : OrderDir

pub record CannedQuery : Type 0 where
  pub profile : Text
  pub table : Text
  pub columns : Option (List Text)
  pub where_clauses : Option (List WhereClause)
  pub where_combinator : Option WhereCombinator
  pub order_by : Option (List OrderBy)
  pub limit : Option ℕ

pub data Dialect : Type 0 where
  mysql postgres sqlite : Dialect

pub data QueryValue : Type 0 where
  string_value : Text → QueryValue
  i64_value u64_value f64_value : ℕ → QueryValue
  bool_value : Bool → QueryValue

pub data QueryError : Type 0 where
  table_mismatch : (query_table schema_table : Text) → QueryError
  unknown_column disallowed_column unsafe_column : Text → QueryError
  operator_type_mismatch : (col : Text) → WhereOp → (data_type : Text) → QueryError
  operator_requires_list operator_requires_scalar : WhereOp → QueryError
  operator_requires_no_value operator_requires_value : WhereOp → QueryError
  limit_exceeds_cap : (requested cap : ℕ) → QueryError

pub record CompiledQuery : Type 0 where
  pub sql : Text
  pub binds : List QueryValue
