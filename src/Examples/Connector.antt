-- ===== src/Examples/Connector.antt =====
-- A client whose connection is refused (src/websocket_connector_plain.cpp).
use boost_web.Common.{◌+◌, ◌≤◌, codes, none, refl}
use boost_web.Address.{default}
use boost_web.Errors.{success, other_error}
use boost_web.DetectSession.{plain}
use boost_web.Connector.{
  Connector, new, run, resolve, connect, complete, on_resolve, After, running, ended,
}
use boost_web.Connector.Answers.{Heard, left, answered_once}

abbrev resolving : Connector
resolving = run (new plain 7 30 (codes "localhost") (codes "1") (codes "/"))

abbrev connecting : Connector
connecting = complete resolve success default (record resolving { outstanding = none })

abbrev refused : Connector
refused = complete connect (other_error 111) default (record connecting { outstanding = none })

refused-After : After 2 refused
unfolding run complete on_resolve
refused-After =
    ended connect (other_error 111) default
      (ended resolve success default
        (running plain 7 30 (codes "localhost") (codes "1") (codes "/")) refl)
      refl

answered_once_example : Heard refused × (2 + left refused.outstanding ≤ 4)
answered_once_example = answered_once 2 refused refused-After
