-- ===== src/Blueprint/Inserts.antt =====
-- What the loops of POST /blueprint/apply in apps/api/src/routes/blueprint.ts share: rows and jobs that
-- are added, and the addresses of apps that load balancers name.
use your_stack.Common.{
  ℕ, suc, Bool, false, ◌&&◌, Option, none, some, List, [], ◌∷◌, ◌++◌, ◌==◌, String, any,
  if◌then◌else◌, ltb,
}
use your_stack.Common.Text.{Text, codes, eq_text, decimal}
use your_stack.Network.{
  FirewallRuleRow, Policy, Protocol, allow, deny, tcp, udp, icmp, any_protocol,
}
use your_stack.Blueprint.Schema.{
  ResourceKind, app, BlueprintPlanItem, Number, whole, negative, fraction, BlueprintApp,
  BlueprintRule,
}
use your_stack.Blueprint.Names.{AppAddress}
use your_stack.Blueprint.Plan.{kind_rank}
use your_stack.Blueprint.Store.{
  ResourceColumns, ResourceRow, Store, Run, Thrown, unique_violation, invalid_data, kind_of,
  is_live, app_columns, BlueprintJob,
}

-- `throw`
abbrev pub throw : Thrown → Run → Run
throw t run = record run { thrown = some t }

-- `a ?? b`
abbrev pub first_some : Option Text → Option Text → Option Text
first_some none b = b
first_some (some a) b = some a

-- `created(item)`
abbrev pub created : BlueprintPlanItem → Run → Run
created item run = record run { applied = run.applied ++ (item ∷ []) }

-- A row of a kind's table whose columns the database requires to be unique, deleted rows included.
abbrev pub clashes : ResourceKind → ℕ → (ResourceRow → Bool) → Store → Bool
clashes kind owner same s =
    any (λ r. kind_rank (kind_of r.columns) == kind_rank kind && (r.owner_id == owner && same r))
      s.rows

-- `create({ data })`
abbrev pub insert_row : ℕ → Text → ResourceColumns → Store → Store
insert_row owner name columns s = record s {
  rows =
      record { id = s.next_id; owner_id = owner; name = name; columns = columns; deleted = false }
      ∷ s.rows;
  next_id = suc s.next_id;
}

-- `queues.….add` for the row that was created last.
abbrev pub enqueue : (ℕ → BlueprintJob) → ℕ → Store → Store
enqueue job id s = record s { jobs = job id ∷ s.jobs }

-- A row that is created and recorded, without and with a job.
abbrev pub add_row : ℕ → Text → ResourceColumns → BlueprintPlanItem → Run → Run
add_row owner name columns item run =
    created item (record run { store = insert_row owner name columns run.store })

abbrev pub add_with_job :
    (ℕ → BlueprintJob) → ℕ → Text → ResourceColumns → BlueprintPlanItem → Run → Run
add_with_job job owner name columns item run =
    created item (record run {
      store = enqueue job run.store.next_id (insert_row owner name columns run.store);
    })

-- What a column of the type Int takes: a whole number of 32 bits with its sign.
abbrev pub fits_int : Number → Bool
fits_int (whole n) = ltb n 2147483648
fits_int (negative n) = ltb n 2147483648
fits_int (fraction t) = false

-- The database client refuses a row with another number.
abbrev pub throw_unless_fits : Bool → Run → Run → Run
throw_unless_fits fits run added = if fits then added else throw invalid_data run

-- The database refuses a row that is not unique.
abbrev pub throw_if_clash : Bool → Run → Run → Run
throw_if_clash clash run added = if clash then throw unique_violation run else added

abbrev pub has_slug : Text → ResourceColumns → Bool
has_slug slug (app_columns c) = eq_text c.slug slug
has_slug slug _ = false

abbrev pub insert_app : ℕ → Text → ResourceColumns → Store → Store
insert_app owner name columns s =
    let s' = insert_row owner name columns s in
    record s' {
      environments = record { app_id = s.next_id; name = codes "production" } ∷ s.environments;
    }

abbrev pub remember : Text → AppAddress → Run → Run
remember name address run = record run {
  app_address_by_name = (name, address) ∷ run.app_address_by_name;
}

-- `appAddressByName.get(name)`: the last that was set.
unfoldable pub address_of : Text → List (Text × AppAddress) → Option AppAddress
address_of name [] = none
address_of name ((other, address) ∷ addresses) =
    if eq_text name other then some address else address_of name addresses

-- `prisma.app.findFirst({ where: { projectId, name, deletedAt: null }, select: { id, port } })`
abbrev pub address_in : ResourceColumns → ℕ → Option AppAddress
address_in (app_columns c) id = some record { app_id = id; port = c.port }
address_in _ id = none

unfoldable pub find_address : ℕ → Text → List ResourceRow → Option AppAddress
find_address pid name [] = none
find_address pid name (r ∷ rows) =
    if is_live app pid r && eq_text name r.name
    then address_in r.columns r.id
    else find_address pid name rows

-- The branch of an app that is there.
unfoldable pub keep_app : ℕ → BlueprintApp → Run → Run
unfolding find_address
keep_app pid a run = elim (find_address pid a.name run.store.rows) [
  | none ↦ run
  | some address ↦ remember a.name address run
]

-- `node.publicIp ? … : null`: neither null nor empty.
abbrev pub endpoint_of : Option Text → ℕ → Option Text
endpoint_of none port = none
endpoint_of (some ip) port = some (codes "http://" ++ (ip ++ (codes ":" ++ decimal port)))

abbrev pub policy_text : Policy → String
policy_text allow = "allow"
policy_text deny = "deny"

abbrev pub protocol_text : Protocol → String
protocol_text tcp = "tcp"
protocol_text udp = "udp"
protocol_text icmp = "icmp"
protocol_text any_protocol = "any"

-- `fw.rules.map((r, position) => …)`, from a position on.
unfoldable pub rule_rows : ℕ → List BlueprintRule → List FirewallRuleRow
rule_rows position [] = []
rule_rows position (r ∷ rules) =
    record {
      direction = "inbound";
      action = if r.allow then "allow" else "deny";
      protocol = protocol_text r.protocol;
      port = r.port;
      cidr = r.cidr;
      comment = none;
      position = position;
    }
    ∷ rule_rows (suc position) rules

-- The targets of a load balancer that name an app, and those that do not.
unfoldable pub app_addresses : List (Text × AppAddress) → List Text → List AppAddress
unfolding address_of
app_addresses by_name [] = []
app_addresses by_name (t ∷ targets) = elim (address_of t by_name) [
  | none ↦ app_addresses by_name targets
  | some address ↦ address ∷ app_addresses by_name targets
]

unfoldable pub explicit_of : List (Text × AppAddress) → List Text → List Text
unfolding address_of
explicit_of by_name [] = []
explicit_of by_name (t ∷ targets) = elim (address_of t by_name) [
  | none ↦ t ∷ explicit_of by_name targets
  | some address ↦ explicit_of by_name targets
]
