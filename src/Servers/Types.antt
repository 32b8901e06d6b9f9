-- ===== src/Servers/Types.antt =====
-- The rows of the inventory: app/models/server.py, and what app/models declares of the tables that
-- refer to a server. An instant is a number of microseconds. The columns that only a client reads
-- are together in `details`.
use superflash_ia.Prelude.{ℕ, String, Bool, Option, List}
use superflash_ia.Onboarding.Types.{Onboarding, AuditEvent, InventorySnapshot}
use superflash_ia.Channels.Types.{Channel, CategoryInterval}

-- `ServerLifecycleState`
pub data Lifecycle : Type 0 where
  active archived deleted : Lifecycle

-- The columns of a `ServerMetric` or an `Alert` that the inventory reads.
pub record OwnedRow : Type 0 where
  pub row_id : ℕ
  pub server_id : ℕ

-- The columns of a `ChannelMetric` that the inventory reads.
pub record ChannelRow : Type 0 where
  pub row_id : ℕ
  pub channel_id : ℕ
  pub server_id : Option ℕ

module _ (Details Number : Type 0) where
  -- `Server`
  pub record ServerRow : Type 0 where
    pub server_id : ℕ
    pub external_id : String
    pub name : String
    pub hostname : Option String
    pub monthly_cost : Option Number
    pub lifecycle_state : Lifecycle
    pub archived_at : Option ℕ
    pub enabled : Bool
    pub details : Details

  -- The tables, with the key that the database gives the next server.
  pub record Inventory : Type 0 where
    pub servers : List ServerRow
    pub metrics : List OwnedRow
    pub alerts : List OwnedRow
    pub snapshots : List InventorySnapshot
    pub onboardings : List Onboarding
    pub audits : List AuditEvent
    pub channels : List Channel
    pub channel_metrics : List ChannelRow
    pub intervals : List CategoryInterval
    pub next_server : ℕ

-- `ServerSnapshot`; `details` writes the role and the network capacity.
pub record ServerSnapshot (Details : Type 0) : Type 0 where
  pub external_id : String
  pub name : String
  pub hostname : Option String
  pub enabled : Bool
  pub details : Details → Details

-- `ServerUpdate`: `none` is a field that the client did not send, `some none` the value null;
-- `details` is none where a column that is not nullable would be null.
pub record ServerUpdate (Details Number : Type 0) : Type 0 where
  pub external_id : Option (Option String)
  pub name : Option (Option String)
  pub hostname : Option (Option String)
  pub monthly_cost : Option (Option Number)
  pub enabled : Option (Option Bool)
  pub details : Details → Option Details

-- `ServerDeletionRequest`
pub record DeletionRequest : Type 0 where
  pub confirmation : String
  pub hostname : Option String
