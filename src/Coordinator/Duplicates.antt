-- ===== src/Coordinator/Duplicates.antt =====
-- A Gateway event that comes twice (外置策略API/qmt_local_api/coordinator.py).
use qmt_python_tcp.Prelude.{Bool, not, ◌&&◌, ◌=t=◌, is_empty, strip, any}
use qmt_python_tcp.Coordinator.Rows.{Message, Database, Settings}
use qmt_python_tcp.Coordinator.Events.{event_key}
use qmt_python_tcp.Coordinator.Events.{has_event}

module _ (settings : Settings) (message : Message) where
  abbrev is_known : Database → Bool
  is_known s = any (has_event (event_key settings message)) s.inbox

  abbrev is_foreign : Bool
  is_foreign =
      not (is_empty (strip message.account_id))
      && not (strip message.account_id =t= settings.account_id)
