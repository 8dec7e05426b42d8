-- ===== src/Executors.antt =====
-- `build_executors` (app/services/approval_execution.py): which service applies the approved
-- actions of a domain. What an executor returns is the row, in place of its serialization.
pub mod Purchases
pub mod Reservations
use restaurant_sahayak.Base.{String, Option, none, some, str_eq, if◌then◌else◌}
use restaurant_sahayak.Approvals.{Executor}
use restaurant_sahayak.Reservations.Service.{ReservationService}
use restaurant_sahayak.Reservations.Service
use restaurant_sahayak.Inventory.{InventoryService}
use restaurant_sahayak.Inventory

abbrev pub reservation_executor : Option ReservationService → Option Executor
reservation_executor none = none
reservation_executor (some service) =
    some (restaurant_sahayak.Reservations.Service.execute_approved_action service)

abbrev pub purchase_executor : Option InventoryService → Option Executor
purchase_executor none = none
purchase_executor (some service) = some restaurant_sahayak.Inventory.execute_approved_action

unfoldable pub build_executors :
    Option ReservationService → Option InventoryService → String → Option Executor
build_executors reservation_service inventory_service domain =
    if str_eq domain "reservation"
    then reservation_executor reservation_service
    else if str_eq domain "purchase"
    then purchase_executor inventory_service
    else none
