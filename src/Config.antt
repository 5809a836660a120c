-- ===== src/Config.antt =====
-- The configuration: daemon/src/user.rs, application.rs and the structures of common.rs,
-- sms_utils.rs, email_utils.rs, ssh_utils.rs and init.rs that toml fills.
use telco_vecchio.Prelude.{ℕ, List, Option}
use telco_vecchio.Text.{Text}
use telco_vecchio.Text.Decimal.{ℤ}

-- `std::net::IpAddr`, by its printed form, which determines it
abbrev pub IpAddr : Type 0
IpAddr = Text

pub record User : Type 0 where
  pub name : Text
  pub phone_number : Text
  pub email : Text

pub record Application : Type 0 where
  pub name : Text
  pub host_ip : IpAddr
  pub port : ℤ
  pub end_point : Text

pub record SmsConfig : Type 0 where
  pub modem_device : Text
  pub qmi_modem_device : Text
  pub qmi_binary_file : Text
  pub sim_pin : Text
  pub sms_send_timeout_sec : ℕ

pub record EmailConfig : Type 0 where
  pub binary_file : Text
  pub sender_alias : Text
  pub server_domain : Text
  pub internet_host : IpAddr
  pub email_send_timeout_sec : ℕ

pub record SshConfig : Type 0 where
  pub binary_file : Text
  pub key_file : Text
  pub service_user : Text
  pub service_host : Text
  pub tunnel_input_port : ℤ
  pub tunnel_setup_timeout_sec : ℕ
  pub tunnel_timeout_sec : ℕ
  pub tunnel_refresh_period_sec : ℕ
  pub tunnel_max_number : Option ℕ

pub record InitConfig : Type 0 where
  pub init_status_refresh_period_seconds : ℕ
  pub init_status_refresh_max_retry : ℕ

pub record Configuration : Type 0 where
  pub users : List User
  pub applications : List Application
  pub sms_config : SmsConfig
  pub email_config : EmailConfig
  pub ssh_config : SshConfig
  pub init_config : InitConfig
