-- ===== src/Ast.antt =====
-- scripting/ast.go: the nodes that the validator reads, as the expander leaves them. A pointer
-- that may be nil is an `Option`. The fields that only the expander reads (loops, use statements,
-- expressions for orders) and the nodes of products, courses and media are not modelled.
use sentanyl_core_readonly.Prelude.{Bool, Option, List, Str}
use sentanyl_core_readonly.Prelude.Int.{ℤ}
use sentanyl_core_readonly.Token.{Pos}

pub record RequiredBadgesNode : Type 0 where
  pub pos : Pos
  pub must_have : List Str
  pub must_not_have : List Str

pub record BadgeTransactionNode : Type 0 where
  pub pos : Pos
  pub give_badges : List Str
  pub remove_badges : List Str

pub record LifecycleBlock : Type 0 where
  pub pos : Pos
  pub badge_transaction : Option BadgeTransactionNode

-- `OnCompleteBlock` and `OnFailBlock` have the same fields.
pub record OnCompleteBlock : Type 0 where
  pub pos : Pos
  pub badge_transaction : Option BadgeTransactionNode
  pub next_story : Str

abbrev pub OnFailBlock : Type 0
OnFailBlock = OnCompleteBlock

pub record ConditionalRouteNode : Type 0 where
  pub pos : Pos
  pub required_badges : Option RequiredBadgesNode
  pub next_storyline : Str
  pub priority : Option ℤ

-- `StorylineCompleteBlock` and `StorylineFailBlock` have the same fields.
pub record StorylineCompleteBlock : Type 0 where
  pub pos : Pos
  pub badge_transaction : Option BadgeTransactionNode
  pub next_storyline : Str
  pub conditional_routes : List ConditionalRouteNode

abbrev pub StorylineFailBlock : Type 0
StorylineFailBlock = StorylineCompleteBlock

pub record DurationNode : Type 0 where
  pub pos : Pos
  pub amount : ℤ
  pub unit : Str
  pub raw_value : Str

-- The fields of an `ActionNode` but `RetryFallback`.
pub record ActionFields : Type 0 where
  pub pos : Pos
  pub action_type : Str
  pub target : Str
  pub send_immediate : Option Bool
  pub wait : Option DurationNode
  pub badge_transaction : Option BadgeTransactionNode
  pub unsubscribe : Bool
  pub end_story : Bool
  pub mark_complete : Bool
  pub mark_failed : Bool
  pub advance_to_next_storyline : Bool
  pub retry_max_count : Option ℤ

-- An action with its `RetryFallback`.
mutual
  pub data ActionNode : Type 0 where
    action_node : ActionFields → ActionList → ActionNode

  pub data ActionList : Type 0 where
    no_action : ActionList
    and_action : ActionNode → ActionList → ActionList

-- A condition: its type, its value and its `Children`.
mutual
  pub data ConditionNode : Type 0 where
    condition_node : Str → Str → ConditionList → ConditionNode

  pub data ConditionList : Type 0 where
    no_condition : ConditionList
    and_condition : ConditionNode → ConditionList → ConditionList

pub record TriggerNode : Type 0 where
  pub pos : Pos
  pub trigger_type : Str
  pub user_action_value : Str
  pub within : Option DurationNode
  pub priority : Option ℤ
  pub persist_scope : Str
  pub mark_complete : Bool
  pub mark_failed : Bool
  pub required_badges : Option RequiredBadgesNode
  pub conditions : ConditionList
  pub actions : ActionList
  pub else_actions : ActionList
  pub watch_block_id : Str
  pub watch_operator : Str
  pub watch_percent : ℤ

pub record SceneNode : Type 0 where
  pub pos : Pos
  pub name : Str
  pub subject : Str
  pub body : Str
  pub from_email : Str
  pub from_name : Str
  pub reply_to : Str
  pub template_name : Str
  pub vars : List (Str × Str)
  pub tags : List Str
  pub context_pack_refs : List Str
  pub subject_gen : Str
  pub body_gen : Str

pub record EnactmentNode : Type 0 where
  pub pos : Pos
  pub name : Str
  pub level : Option ℤ
  pub order : Option ℤ
  pub skip_to_next_storyline_on_expiry : Option Bool
  pub scenes : List SceneNode
  pub triggers : List TriggerNode

pub record StorylineNode : Type 0 where
  pub pos : Pos
  pub name : Str
  pub order : Option ℤ
  pub required_badges : Option RequiredBadgesNode
  pub on_begin : Option LifecycleBlock
  pub on_complete : Option StorylineCompleteBlock
  pub on_fail : Option StorylineFailBlock
  pub enactments : List EnactmentNode

pub record StoryNode : Type 0 where
  pub pos : Pos
  pub name : Str
  pub priority : Option ℤ
  pub allow_interruption : Option Bool
  pub on_begin : Option LifecycleBlock
  pub on_complete : Option OnCompleteBlock
  pub on_fail : Option OnFailBlock
  pub required_badges : Option RequiredBadgesNode
  pub start_trigger : Option Str
  pub complete_trigger : Option Str
  pub storylines : List StorylineNode

-- Of forms, pages, stages, routes, funnels and sites: the fields that the validator reads.
pub record FormNode : Type 0 where
  pub pos : Pos
  pub name : Str

pub record PageNode : Type 0 where
  pub pos : Pos
  pub name : Str
  pub forms : List FormNode

pub record StageNode : Type 0 where
  pub pos : Pos
  pub name : Str
  pub path : Str
  pub pages : List PageNode
  pub triggers : List TriggerNode

pub record RouteNode : Type 0 where
  pub pos : Pos
  pub name : Str
  pub order : Option ℤ
  pub required_badges : Option RequiredBadgesNode
  pub stages : List StageNode

pub record FunnelNode : Type 0 where
  pub pos : Pos
  pub name : Str
  pub domain : Str
  pub routes : List RouteNode

pub record SiteNode : Type 0 where
  pub pos : Pos
  pub name : Str
  pub domain : Str
  pub theme : Str
  pub pages : List PageNode

pub record ScriptAst : Type 0 where
  pub stories : List StoryNode
  pub funnels : List FunnelNode
  pub sites : List SiteNode
