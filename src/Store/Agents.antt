-- ===== src/Store/Agents.antt =====
-- The agent registry of `HubStore`, and its counts.
use a2a_superhub.Prelude.{
  ℕ, String, Option, none, some, List, [], ◌∷◌, ◌==◌, find, length, sort_by, text_leb,
  if◌then◌else◌, Exec, ◌>>=◌, ◌>>◌, pure, lift, gets, modify, raise_if, transaction,
}
use a2a_superhub.Json.{Value, str, get, ◌or◌, to_str, strip}
use a2a_superhub.Models.{Exn, ensure_object}
use a2a_superhub.Store.Tables.{Store, Agent, Env}

unfoldable pub find_agent : String → List Agent → Option Agent
find_agent agent_id = find (λ a. a.agent_id == agent_id)

-- `INSERT … ON CONFLICT(agent_id) DO UPDATE SET card_json, updated_at`
unfoldable pub upsert_agent : Agent → List Agent → List Agent
upsert_agent a [] = a ∷ []
upsert_agent a (x ∷ xs) =
    if x.agent_id == a.agent_id
    then record x { card = a.card; updated_at = a.updated_at } ∷ xs
    else x ∷ upsert_agent a xs

created_or : Option Agent → String → String
created_or none now = now
created_or (some existing) now = existing.created_at

register_as : Env → String → Value → Exec Exn Store Agent
unfolding find_agent upsert_agent created_or
register_as env agent_id card = transaction (do
  existing ← gets (λ s. find_agent agent_id s.agents)
  let a : Agent = record {
    agent_id = agent_id;
    card = card;
    created_at = created_or existing env.now;
    updated_at = env.now;
  }
  modify (λ s. record s { agents = upsert_agent a s.agents })
  pure a)

unfoldable pub register_agent : Env → Value → Exec Exn Store Agent
unfolding ensure_object get ◌or◌ to_str strip register_as
register_agent env card = do
  fields ← lift (ensure_object card)
  let agent_id = strip (to_str env.repr (get fields "id" or get fields "name" or str ""))
  raise_if (agent_id == "") Exn.value_error
  register_as env agent_id card

unfoldable pub list_agents : Store → List Agent
unfolding sort_by
list_agents s = sort_by (λ a b. text_leb a.agent_id b.agent_id) s.agents

-- the counts of `health`
pub record Counts : Type 0 where
  pub agents : ℕ
  pub tasks : ℕ
  pub events : ℕ

unfoldable pub health : Store → Counts
health s = record { agents = length s.agents; tasks = length s.tasks; events = length s.events }
