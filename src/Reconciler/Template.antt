-- ===== src/Reconciler/Template.antt =====
-- internal/controller/noplanecontrolplanetemplate_controller.go: the controller of templates, which
-- does nothing yet.
use capi_noplane.Exec.{pure}
use capi_noplane.Types.{NamespacedName}
use capi_noplane.Reconciler.Calls.{Action, Return, requeue}

unfoldable pub reconcile_template : {W : Type 0} → NamespacedName → Action W Return
reconcile_template req = pure (requeue 0)
