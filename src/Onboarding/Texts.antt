-- ===== src/Onboarding/Texts.antt =====
-- `SAFE_ERRORS` of app/services/onboarding_service.py: the only texts that a failure may store.
use superflash_ia.Prelude.{String, List, [], ◌∷◌, ◌==◌, string_eq, if◌then◌else◌}

abbrev pub safe_errors : List (String × String)
safe_errors =
    ("authentication_failed", "La autenticación SSH fue rechazada.")
    ∷ ("wrong_password", "La contraseña SSH no fue aceptada.")
    ∷ ("ssh_user_not_found", "El usuario SSH no existe en el servidor.")
    ∷ ("root_login_disabled", "El acceso SSH directo de root está deshabilitado.")
    ∷ (
      "password_authentication_disabled",
      "La autenticación por contraseña está deshabilitada; usa una clave privada.",
    )
    ∷ ("public_key_required", "El servidor requiere autenticación por clave pública.")
    ∷ ("permission_denied", "El acceso SSH fue denegado.")
    ∷ ("ssh_timeout", "La conexión SSH agotó el tiempo de espera.")
    ∷ ("host_unreachable", "El servidor no es alcanzable por SSH.")
    ∷ ("firewall_blocked", "La conexión SSH fue rechazada por el servidor o firewall.")
    ∷ ("fingerprint_mismatch", "La huella SSH no coincide; el onboarding fue bloqueado.")
    ∷ ("host_key_invalid", "La host key SSH no coincide con la registrada.")
    ∷ ("host_key_new", "Se requiere confirmar la huella de la host key SSH.")
    ∷ ("host_key_changed", "La host key SSH cambió y fue bloqueada.")
    ∷ ("connection_failed", "No se pudo conectar por SSH al servidor.")
    ∷ ("command_failed", "Falló una comprobación remota controlada.")
    ∷ ("command_timeout", "La comprobación remota superó el tiempo máximo.")
    ∷ ("requirements_missing", "El servidor no cumple los requisitos de provisioning.")
    ∷ ("port_9100_occupied", "El puerto 9100 está ocupado por un servicio no verificado.")
    ∷ ("installer_failed", "La instalación de Node Exporter no fue validada.")
    ∷ ("firewall_failed", "No se pudo configurar el firewall del Node Exporter.")
    ∷ ("exporter_unhealthy", "Node Exporter no respondió con métricas válidas.")
    ∷ ("inventory_failed", "No se pudo registrar el inventario técnico.")
    ∷ ("network_interface_missing", "La interfaz de red configurada no existe.")
    ∷ ("prometheus_not_configured", "Prometheus no está configurado para este servidor.")
    ∷ ("prometheus_unavailable", "Prometheus no pudo validar el target del servidor.")
    ∷ ("cancelled", "Onboarding cancelado por el operador.")
    ∷ ("job_expired", "El onboarding expiró por falta de actividad y quedó terminalizado.")
    ∷ ("rollback_failed", "Rollback incompleto; revisar el diagnóstico del servidor.")
    ∷ ("internal_error", "Onboarding detenido por un error interno seguro.")
    ∷ ("invalid_private_key", "La clave privada SSH no es válida.")
    ∷ ("maintenance_failed", "La acción administrada no pudo validarse.")
    ∷ (
      "temporary_directory_unavailable",
      "El usuario no tiene acceso de escritura al directorio temporal.",
    )
    ∷ []

-- `texts.get(code, default)`
unfoldable pub text_for : List (String × String) → String → String → String
text_for [] code default = default
text_for ((k, text) ∷ texts) code default = if k == code then text else text_for texts code default

abbrev pub internal_error_text : String
internal_error_text = "Onboarding detenido por un error interno seguro."

-- `SAFE_ERRORS.get(code, SAFE_ERRORS["internal_error"])`
unfoldable pub safe_error : String → String
unfolding text_for
safe_error code = text_for safe_errors code internal_error_text
