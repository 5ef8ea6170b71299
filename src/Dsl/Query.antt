-- ===== src/Dsl/Query.antt =====
-- The other types of dsl/types.go that the planner, the generator and the pipe read, field for
-- field where they read them.
use dql.Prelude.{String, Bool, not, ◌&&◌, ◌||◌, List, Option, str_eq, if◌then◌else◌}
use dql.Prelude.Int.{ℤ}
use dql.Go.Value.{Value}
use dql.Dsl.Where.{WhereClause}

pub record SelectField : Type 0 where
  pub field : String
  pub expr : String
  pub as_name : String

unfoldable pub output_name : SelectField → String
output_name s =
    if not (str_eq s.as_name "")
    then s.as_name
    else if not (str_eq s.field "")
    then s.field
    else s.expr

pub record ComputedColumn : Type 0 where
  pub name : String
  pub expr : String

pub record AggregateClause (F : Type 0) : Type 0 where
  pub fn : String
  pub field : String
  pub expr : String
  pub args : List (Value F)
  pub as_name : String

-- The functions that `IsPushable` accepts.
abbrev pub is_sql_aggregate : String → Bool
is_sql_aggregate fn =
    str_eq fn "COUNT" || str_eq fn "SUM" || str_eq fn "AVG" || str_eq fn "MIN" || str_eq fn "MAX"

unfoldable pub is_pushable : {F : Type 0} → AggregateClause F → Bool
is_pushable a = is_sql_aggregate a.fn && str_eq a.expr ""

pub record OrderByClause : Type 0 where
  pub field : String
  pub expr : String
  pub dir : String

pub record JoinClause : Type 0 where
  pub dataset : String
  pub alias : String
  pub on_left : String
  pub on_right : String
  pub type : String

-- `QueryDSL`, the fields that planning and processing read.
pub record Query (F : Type 0) : Type 0 where
  pub dataset : String
  pub project_id : String
  pub joins : List JoinClause
  pub filter : Option (WhereClause F)
  pub select : List SelectField
  pub computed : List ComputedColumn
  pub group_by : List String
  pub aggregate : List (AggregateClause F)
  pub having : Option (WhereClause F)
  pub order_by : List OrderByClause
  pub limit : Option ℤ
  pub offset : Option ℤ

pub record ColumnMeta : Type 0 where
  pub name : String
  pub type : String
  pub source : String
  pub ref_dataset : String

unfoldable pub is_raw : ColumnMeta → Bool
is_raw c = str_eq c.source "" || str_eq c.source "raw"

pub record DatasetInfo : Type 0 where
  pub name : String
  pub table_name : String
  pub columns : List ColumnMeta
  pub versioned : Bool

pub record JoinPlan : Type 0 where
  pub table_name : String
  pub alias : String
  pub on_left : String
  pub on_right : String
  pub type : String
  pub scope_columns : List String

pub record ColumnInfo : Type 0 where
  pub name : String
  pub type : String
  pub source : String

pub record QueryPlan (F : Type 0) : Type 0 where
  pub dataset : DatasetInfo
  pub dataset_name : String
  pub table_name : String
  pub pushed_where : Option (WhereClause F)
  pub pushed_select : List String
  pub pushed_order : List OrderByClause
  pub pushed_group : List String
  pub pushed_aggs : List (AggregateClause F)
  pub pushed_limit : Option ℤ
  pub pushed_offset : Option ℤ
  pub has_having : Bool
  pub pushed_having : Option (WhereClause F)
  pub joins : List JoinPlan
  pub in_memory : List String
  pub columns : List ColumnInfo
