-- ===== src/Policy/Network.antt =====
-- crates/jux-core/src/policy/wasm/network.rs: ordered rules for HTTP requests.
use jux.Base.{
  ◌≡◌, ◌↔◌, refl, Bool, true, false, not, Text, codes, text_eq, List, [], ◌∷◌, ◌++◌, Option, none,
  some, Result, ok, ◌>>=◌, map_err, if◌then◌else◌, is_empty,
}
use jux.Policy.FirstMatch.{FirstMatch, run_iff}
use jux.Policy.Pattern.{RegexCrate, MatchPatternKind, matches}

pub data WasmHttpMethod : Type 0 where
  get post put patch delete head options : WasmHttpMethod

-- `WasmHttpMethod::from_http_method`
unfoldable pub from_http_method : Text → Option WasmHttpMethod
from_http_method name =
    if text_eq name (codes "GET")
    then some get
    else if text_eq name (codes "POST")
    then some post
    else if text_eq name (codes "PUT")
    then some put
    else if text_eq name (codes "PATCH")
    then some patch
    else if text_eq name (codes "DELETE")
    then some delete
    else if text_eq name (codes "HEAD")
    then some head
    else if text_eq name (codes "OPTIONS")
    then some options
    else none

abbrev pub method_eq : WasmHttpMethod → WasmHttpMethod → Bool
method_eq get get = true
method_eq post post = true
method_eq put put = true
method_eq patch patch = true
method_eq delete delete = true
method_eq head head = true
method_eq options options = true
method_eq _ _ = false

pub data WasmHttpMatchKind : Type 0 where
  literal regex wildcard : WasmHttpMatchKind

-- `From<WasmHttpMatchKind> for MatchPatternKind`
abbrev pub pattern_kind : WasmHttpMatchKind → MatchPatternKind
pattern_kind literal = MatchPatternKind.literal
pattern_kind regex = MatchPatternKind.regex
pattern_kind wildcard = MatchPatternKind.wildcard

pub data WasmHttpRuleEffect : Type 0 where
  allow deny : WasmHttpRuleEffect

pub data WasmHttpDecision : Type 0 where
  allow deny : WasmHttpDecision

-- `From<WasmHttpRuleEffect> for WasmHttpDecision`
abbrev pub decision_of : WasmHttpRuleEffect → WasmHttpDecision
decision_of WasmHttpRuleEffect.allow = WasmHttpDecision.allow
decision_of WasmHttpRuleEffect.deny = WasmHttpDecision.deny

pub record WasmHttpRule : Type 0 where
  pub effect : WasmHttpRuleEffect
  pub method : WasmHttpMethod
  pub match_kind : WasmHttpMatchKind
  pub pattern : Text

pub record WasmNetworkPolicy : Type 0 where
  pub http_rules : List WasmHttpRule

-- `WasmNetworkPolicy::http_client_enabled`
abbrev pub http_client_enabled : WasmNetworkPolicy → Bool
http_client_enabled policy = not (is_empty policy.http_rules)

module _ (crate : RegexCrate) where
  unfoldable pub matches_url : WasmHttpRule → Text → Result Text Bool
  matches_url rule url =
      map_err (λ error. codes "invalid HTTP URL policy pattern: " ++ error)
        (matches crate (record { kind = pattern_kind rule.match_kind; value = rule.pattern }) url)

  unfoldable pub matches_request : WasmHttpRule → WasmHttpMethod → Text → Result Text Bool
  matches_request rule method url =
      if not (method_eq rule.method method) then ok false else matches_url rule url

  -- The loop over the rules.
  unfoldable pub decide_http_rules :
      List WasmHttpRule → WasmHttpMethod → Text → Result Text WasmHttpDecision
  decide_http_rules [] method url = ok WasmHttpDecision.deny
  decide_http_rules (rule ∷ rules) method url = do
    let rest = decide_http_rules rules method url
    matched ← matches_request rule method url
    if matched then ok (decision_of rule.effect) else rest

  unfoldable pub decide_http_request :
      WasmNetworkPolicy → WasmHttpMethod → Text → Result Text WasmHttpDecision
  decide_http_request policy method url = decide_http_rules policy.http_rules method url

  abbrev pub AllowsFirst : WasmNetworkPolicy → WasmHttpMethod → Text → Type 0
  AllowsFirst policy method url =
      FirstMatch (λ r. matches_request r method url)
        (λ r. decision_of r.effect ≡ WasmHttpDecision.allow) policy.http_rules

  -- A request is allowed exactly if a rule matches it, the first rule that does is an allow rule,
  -- and no pattern that is tried before is malformed.
  pub decide_http_request-allow_iff :
      (policy : WasmNetworkPolicy) (method : WasmHttpMethod) (url : Text)
      → (decide_http_request policy method url ≡ ok WasmHttpDecision.allow)
        ↔ AllowsFirst policy method url
  unfolding decide_http_request decide_http_rules
  decide_http_request-allow_iff policy method url =
      run_iff (λ r. matches_request r method url) (λ r. decision_of r.effect) WasmHttpDecision.deny
        (λ rules. decide_http_rules rules method url) refl (λ r rules. refl) WasmHttpDecision.allow
        (λ e. cc) policy.http_rules
