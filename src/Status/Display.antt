-- ===== src/Status/Display.antt =====
-- `Display` of the status: the text of the answer to a `status` request.
use telco_vecchio.Prelude.{[], ◌∷◌, ◌++◌}
use telco_vecchio.Prelude.Map.{Map}
use telco_vecchio.Text.{Text, text}
use telco_vecchio.Status.{
  ServiceStatus, reachable, unreachable, DeviceStatus, sim_locked, lte_not_connected,
  internet_unreachable, ready, Status,
}

unfoldable pub show_device : DeviceStatus → Text
show_device sim_locked = text "SIM Card Locked"
show_device lte_not_connected = text "Cannot connect to LTE network"
show_device internet_unreachable = text "Cannot connect to Internet"
show_device ready = text "Ready"

unfoldable pub show_service : ServiceStatus → Text
show_service reachable = text "OK"
show_service unreachable = text "KO"

-- the loop over the peekable iterator
unfoldable pub show_applications : Map Text ServiceStatus → Text
unfolding show_service
show_applications [] = []
show_applications ((name, status) ∷ []) = name ++ (text ": " ++ show_service status)
show_applications ((name, status) ∷ e ∷ m) =
    name ++ (text ": " ++ (show_service status ++ (text " - " ++ show_applications (e ∷ m))))

unfoldable pub show_status : Status → Text
unfolding show_device show_service show_applications
show_status s =
    (text "Device: " ++ (show_device s.device_status ++ text "\n"))
    ++ ((text "Services: Email: "
          ++ (show_service s.email_service_status
              ++ (text " - Ssh Tunnel: "
                  ++ (show_service s.ssh_tunnel_service_status ++ text "\n"))))
        ++ (text "Apps: " ++ show_applications s.applications_status))
