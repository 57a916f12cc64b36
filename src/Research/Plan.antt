-- ===== src/Research/Plan.antt =====
-- Which topics and which intents the next round of research takes: `plan_topics`,
-- `full_scope_topics`, `plan_intent`, `topic_terms` and `coverage_routes`. The histories are the
-- coverages of earlier rounds, the oldest first.
use Prim.Native.String.{◌++◌ as text_append}
use dealflow_radar.Common.{
  ℕ, suc, String, Option, none, some, Bool, true, false, not, ◌&&◌, List, [], ◌∷◌, ◌++◌, map, any,
  take, leb, is_text, is_given, or_else, same_text, if◌then◌else◌, keep, sort_by,
}
use dealflow_radar.Research.Data.{GroupState, Coverage, Route, topics, is_in}

-- A search group for each topic of a plan, in the order of the plan.
abbrev pub Assignments : Type 0
Assignments = List (String × String)

-- `GROUPS`
abbrev pub groups : List String
groups = "business_capital" ∷ "technology_risk_exit" ∷ []

unfoldable pub attempts_topic : String → GroupState → Bool
attempts_topic category g = is_text category g.topic_category && is_given g.attempted_at

unfoldable pub attempts : String → Coverage → Bool
attempts category c = any (attempts_topic category) c.search_groups

-- `last_attempt.get(category, -1)` plus one, from the histories whose first has this number.
unfoldable pub last_attempt : String → ℕ → ℕ → List Coverage → ℕ
last_attempt category last sequence [] = last
last_attempt category last sequence (h ∷ hs) =
    last_attempt category (if attempts category h then suc sequence else last) (suc sequence) hs

abbrev pub attempt_key : List Coverage → String → ℕ
attempt_key histories category = last_attempt category 0 0 histories

unfoldable pub no_later : List Coverage → String → String → Bool
no_later histories a b = leb (attempt_key histories a) (attempt_key histories b)

-- `sorted(TOPICS, key=...)`
unfoldable pub attempt_order : List Coverage → List String
attempt_order histories = sort_by (no_later histories) topics

unfoldable pub zip : List String → List String → Assignments
zip (g ∷ gs) (c ∷ cs) = (g, c) ∷ zip gs cs
zip _ _ = []

unfoldable pub plan_topics : List Coverage → Assignments
plan_topics histories = zip groups (take 2 (attempt_order histories))

unfoldable pub full_order : List String → List String
full_order first = first ++ keep (λ c. not (is_in first c)) topics

abbrev pub drop_two : List String → List String
drop_two (x ∷ y ∷ zs) = zs
drop_two _ = []

-- `full_scope_topics`
unfoldable pub full_scope_topics : List Coverage → Assignments
full_scope_topics histories =
    let order = full_order (map (λ p. p.1) (plan_topics histories)) in
    zip (groups ++ map (text_append "scope_") (drop_two order)) order

-- `INTENTS.get(category, {category: TOPICS[category]})`; `terms` is the text of the topic.
unfoldable pub intents : String → String → List (String × String)
intents category terms =
    if same_text category "financing_cap_table"
    then ("company_financing", "融资")
      ∷ ("fund_commitment", "基金 认缴")
      ∷ ("outbound_investment", "对外投资 股权")
      ∷ ("registered_capital", "注册资本 变更")
      ∷ []
    else if same_text category "exit_liquidity"
    then ("ipo_application", "IPO 递表 招股书")
      ∷ ("acquisition_target", "被收购 控制权")
      ∷ ("ipo_listed", "挂牌上市")
      ∷ ("ipo_guidance", "上市 辅导 备案")
      ∷ []
    else (category, terms) ∷ []

-- `TOPICS[category]`
unfoldable pub topic_text : String → String
topic_text category =
    if same_text category "financing_cap_table"
    then "融资 股权"
    else if same_text category "exit_liquidity"
    then "IPO 上市 并购"
    else if same_text category "legal_compliance"
    then "诉讼 执行 处罚"
    else if same_text category "financial_operation"
    then "经营 营收 订单"
    else if same_text category "contract_commercial"
    then "合同 中标 合作"
    else if same_text category "product_technology"
    then "产品 认证 技术"
    else if same_text category "governance_people"
    then "高管 董事 离职"
    else "产能 投产 工厂"

-- `topic_terms`; `matters` is `policy.matter_processing_enabled`.
unfoldable pub topic_terms : Bool → String → String
topic_terms matters category =
    if not matters
    then topic_text category
    else if same_text category "financing_cap_table"
    then "融资"
    else if same_text category "exit_liquidity"
    then "IPO 递表 招股书"
    else topic_text category

abbrev pub first_option : List (String × String) → String
first_option [] = ""
first_option ((k, t) ∷ os) = k

-- `state.get("topic_intent") or next(iter(options))`
unfoldable pub intent_of : List (String × String) → GroupState → String
intent_of options g =
    if is_given g.topic_intent then or_else g.topic_intent "" else first_option options

unfoldable pub attempts_intent : String → List (String × String) → String → GroupState → Bool
attempts_intent category options intent g =
    attempts_topic category g && same_text intent (intent_of options g)

-- `attempts.get(intent, -1)` plus one.
unfoldable pub intent_attempt : String → List (String × String) → String → ℕ → ℕ → List Coverage → ℕ
intent_attempt category options intent last sequence [] = last
intent_attempt category options intent last sequence (h ∷ hs) =
    intent_attempt category options intent
      (if any (attempts_intent category options intent) h.search_groups then suc sequence else last)
      (suc sequence) hs

-- `min(options, key=...)`: the first of the least.
unfoldable pub least :
    (String × String → ℕ) → String × String → List (String × String) → String × String
least key o [] = o
least key o (p ∷ ps) = least key (if leb (key o) (key p) then o else p) ps

unfoldable pub selected : (String × String → ℕ) → List (String × String) → Option (String × String)
selected key [] = none
selected key (o ∷ os) = some (least key o os)

-- `plan_intent`: the intent and its topic.
unfoldable pub plan_intent : String → List Coverage → Option (String × String)
plan_intent category histories =
    let options = intents category (topic_text category) in
    selected (λ o. intent_attempt category options o.0 0 0 histories) options

-- `next((g for g, c in assignments.items() if c == category), None)`
unfoldable pub group_of : String → Assignments → Option String
group_of category [] = none
group_of category ((g, c) ∷ xs) = if same_text c category then some g else group_of category xs

-- `coverage_routes`; every route has the two providers.
unfoldable pub coverage_routes : Assignments → List Route
coverage_routes assignments =
    map (λ c. record { category = c; is_configured = true; search_group = group_of c assignments })
      topics
    ++ (record { category = "information_quality"; is_configured = false; search_group = none })
      ∷ []
