-- ===== src/Blueprint/Sources.antt =====
-- What a blueprint's apps and firewalls become on the nodes.
use text.Mathlib.Text.{◌==◌ as str_eq}
use your_stack.Common.{
  ℕ, suc, ◌≡◌, refl, ap, sym, ◌∙◌, Bool, true, false, Option, none, some, List, [], ◌∷◌, map,
  or_else, if◌then◌else◌, Bool-cases, inl, inr, arith, ltb, ◌<◌,
}
use your_stack.Common.Text.{Text, codes, has_prefix}
use your_stack.Secrets.{
  DeploySource, git, buildpack, image, source_url, clone_token_of, resolve_source, if_http,
  non_empty, is_http, demo_fallback_image, is_dockerfile,
}
use your_stack.Network.{
  FirewallRuleRow, FirewallRuleSpec, FirewallRow, build_firewall_spec, Protocol, tcp, udp, icmp,
  any_protocol, ConfigureFirewallSpec, sort_rules, insert_rule, rule_spec, inbound, allow, deny,
  normalize_protocol, Protocol, tcp, udp, icmp, any_protocol,
}
use your_stack.Blueprint.Schema.{BlueprintApp, BlueprintPlanItem, BlueprintRule, BlueprintFirewall}
use your_stack.Blueprint.Names.{Platform}
use your_stack.Blueprint.Store.{
  Run, ResourceRow, AppColumns, app_columns, FirewallColumns, firewall_columns,
}
use your_stack.Blueprint.Inserts.{
  rule_rows, throw_if_clash, throw_unless_fits, fits_int, protocol_text, policy_text, clashes,
  has_slug,
}
use your_stack.Blueprint.Create.{create_app, create_firewall, add_app, app_data, firewall_data}
use your_stack.Blueprint.Schema.{app}
use your_stack.Blueprint.Names.{slugify, to_mb}

-- What an app is built from whose blueprint has the given URL, or none.
abbrev pub source_from : BlueprintApp → Text → Option Text → DeploySource
source_from a ref none = image demo_fallback_image
source_from a ref (some url) =
    if is_dockerfile a.framework
    then git url ref (codes ".") (codes "Dockerfile") none
    else buildpack url ref (or_else a.framework []) none a.build a.start none

http-non_empty : (url : Text) → is_http url ≡ true → non_empty (some url) ≡ some url
unfolding is_http has_prefix
http-non_empty [] h = absurd (cc h)
http-non_empty (c ∷ s) h = refl

if_http-twice : (source : Option Text) → if_http (non_empty (if_http source)) ≡ if_http source
if_http-twice none = refl
if_http-twice (some url) = elim (Bool-cases (is_http url)) [
  | inl t ↦ rw (t, http-non_empty url t, t) refl
  | inr t ↦ rw t refl
]

-- `resolveSource` for the columns that a blueprint's app is created with.
resolve_source-app :
    (decrypt : Text → Option Text) (a : BlueprintApp) (ref branch : Text) (url : Option Text)
    → if_http (non_empty url) ≡ url
    → resolve_source decrypt
        (record {
          framework = a.framework;
          repo_url = url;
          branch = branch;
          install_command = none;
          build_command = a.build;
          start_command = a.start;
        })
        none
        ref
      ≡ source_from a ref url
unfolding resolve_source source_url clone_token_of
resolve_source-app decrypt a ref branch none e = refl
resolve_source-app decrypt a ref branch (some url) e = rw (resolve_source, source_url, e) refl

if_clash :
    (clash : Bool) (run added : Run)
    → (throw_if_clash clash run added).thrown ≡ none
    → throw_if_clash clash run added ≡ added
if_clash true run added e = absurd (cc e)
if_clash false run added e = refl

unless_fits :
    (fits : Bool) (run added : Run)
    → (throw_unless_fits fits run added).thrown ≡ none
    → throw_unless_fits fits run added ≡ added
unless_fits true run added e = refl
unless_fits false run added e = absurd (cc e)

-- An app that a blueprint creates is built, as long as no repository is linked, from the URL that the
-- blueprint gives as its source, with the Dockerfile unless a framework is given; where the source is
-- absent or no HTTP URL, an image for one, it is the demo image, whatever the blueprint's image is.
pub create_app-resolve_source :
    (platform : Platform) (wid pid : ℕ) (bp_region : Option Text) (item : BlueprintPlanItem)
    (a : BlueprintApp) (run : Run) (decrypt : Text → Option Text) (ref : Text)
    → (create_app platform wid pid bp_region item a run).thrown ≡ none
    → (row : ResourceRow) × (c : AppColumns) × ((create_app platform wid pid bp_region item a
          run).store.rows
        ≡ row ∷ run.store.rows)
      × (row.columns ≡ app_columns c)
      × (resolve_source decrypt c.source none ref ≡ source_from a ref (if_http a.source))
unfolding create_app
create_app-resolve_source platform wid pid bp_region item a run decrypt ref e =
    let c = app_data platform wid pid bp_region a in
    let row : ResourceRow = record {
      id = run.store.next_id;
      owner_id = pid;
      name = a.name;
      columns = app_columns c;
      deleted = false;
    } in
    let clash = clashes app pid (λ r. has_slug (slugify a.name) r.columns) run.store in
    let added = add_app platform wid pid bp_region item a run in
    let fits = fits_int (to_mb platform a.resources.memory 512) in
    let valid = unless_fits fits run (throw_if_clash clash run added) e in
    let same = valid ∙ if_clash clash run added (ap (λ r. r.thrown) (sym valid) ∙ e) in
    (
      row,
      c,
      ap (λ r. r.store.rows) same,
      refl,
      resolve_source-app decrypt a ref (or_else a.branch (codes "main")) (if_http a.source)
          (if_http-twice a.source),
    )

-- A rule as the node is to enforce it.
abbrev pub rule_spec_of : BlueprintRule → FirewallRuleSpec
rule_spec_of r = record {
  direction = inbound;
  action = if r.allow then allow else deny;
  protocol = r.protocol;
  port = r.port;
  cidr = if str_eq r.cidr "" then "0.0.0.0/0" else r.cidr;
  comment = none;
}

normalize_protocol-protocol_text : (p : Protocol) → normalize_protocol (protocol_text p) ≡ p
unfolding normalize_protocol
normalize_protocol-protocol_text tcp = refl
normalize_protocol-protocol_text udp = refl
normalize_protocol-protocol_text icmp = refl
normalize_protocol-protocol_text any_protocol = refl

-- The positions are those of the list, so sorting by them changes nothing.
first_rule :
    (n : ℕ) (r : FirewallRuleRow) (rules : List BlueprintRule)
    → r.position < n
    → insert_rule r (rule_rows n rules) ≡ r ∷ rule_rows n rules
unfolding insert_rule rule_rows
first_rule n r [] h = refl
first_rule n r (q ∷ rules) h = let no : ltb n r.position ≡ false = ground (arith, h) in rw no refl

sort_rules-rule_rows :
    (n : ℕ) (rules : List BlueprintRule) → sort_rules (rule_rows n rules) ≡ rule_rows n rules
unfolding sort_rules rule_rows
sort_rules-rule_rows n [] = refl
sort_rules-rule_rows n (r ∷ rules) = rw (sort_rules-rule_rows (suc n) rules) (
    first_rule (suc n)
      (record {
        direction = "inbound";
        action = if r.allow then "allow" else "deny";
        protocol = protocol_text r.protocol;
        port = r.port;
        cidr = r.cidr;
        comment = none;
        position = n;
      })
      rules (omega arith))

rule_specs :
    (n : ℕ) (rules : List BlueprintRule)
    → map rule_spec (rule_rows n rules) ≡ map rule_spec_of rules
unfolding rule_rows rule_spec
rule_specs n [] = refl
rule_specs n (r ∷ rules) = elim (Bool-cases r.allow) [
  | inl t ↦ rw (t, normalize_protocol-protocol_text r.protocol, rule_specs (suc n) rules) refl
  | inr t ↦ rw (t, normalize_protocol-protocol_text r.protocol, rule_specs (suc n) rules) refl
]

-- The firewall row that stands in the table for the columns.
abbrev pub as_firewall : ℕ → ℕ → FirewallColumns → List ℕ → FirewallRow
as_firewall id wid c node_ids = record {
  id = id;
  workspace_id = wid;
  default_inbound = c.default_inbound;
  default_outbound = c.default_outbound;
  rules = c.rules;
  node_ids = node_ids;
  status = c.status;
  deleted = false;
}

-- A firewall that a blueprint creates is given to the nodes as the blueprint declares it: its rules in
-- their order, each for inbound traffic, its policy for inbound traffic, and outbound traffic allowed.
pub create_firewall-build_firewall_spec :
    (platform : Platform) (wid pid : ℕ) (bp_region : Option Text) (item : BlueprintPlanItem)
    (fw : BlueprintFirewall) (run : Run) (node_ids : List ℕ)
    → (row : ResourceRow) × (c : FirewallColumns) × ((create_firewall platform wid pid bp_region
          item fw run).store.rows
        ≡ row ∷ run.store.rows)
      × (row.columns ≡ firewall_columns c)
      × (build_firewall_spec (as_firewall row.id wid c node_ids) c.rules ≡ record {
        firewall_id = row.id;
        default_inbound = fw.default_inbound;
        default_outbound = allow;
        rules = map rule_spec_of fw.rules;
      })
unfolding create_firewall build_firewall_spec
create_firewall-build_firewall_spec platform wid pid bp_region item fw run node_ids =
    let c = firewall_data platform wid pid bp_region fw in
    let row : ResourceRow = record {
      id = run.store.next_id;
      owner_id = wid;
      name = fw.name;
      columns = firewall_columns c;
      deleted = false;
    } in
    (
      row,
      c,
      refl,
      refl,
      rw (sort_rules-rule_rows 0 fw.rules, rule_specs 0 fw.rules)
          (elim fw.default_inbound
            as (λ p.
              ◌≡◌ {A = ConfigureFirewallSpec}
                (record {
                  firewall_id = row.id;
                  default_inbound = if str_eq (policy_text p) "allow" then allow else deny;
                  default_outbound = allow;
                  rules = map rule_spec_of fw.rules;
                })
                (record {
                  firewall_id = row.id;
                  default_inbound = p;
                  default_outbound = allow;
                  rules = map rule_spec_of fw.rules;
                })) [ allow ↦ refl | deny ↦ refl ]),
    )
