-- ===== src/Resources/State.antt =====
-- The tables of packages/db/prisma/schema.prisma that the reports on managed resources change, with the
-- columns that the code here reads or writes. A float is the text that it prints.
use your_stack.Common.{ℕ, Bool, Option, List}
use your_stack.Common.Text.{Text}

pub data DatabaseEngine : Type 0 where
  postgres mysql redis mongodb : DatabaseEngine

pub data DatabaseStatus : Type 0 where
  provisioning running stopped backing_up failed : DatabaseStatus

pub data BucketStatus : Type 0 where
  provisioning active failed : BucketStatus

pub data FunctionStatus : Type 0 where
  idle deploying active failed : FunctionStatus

pub record ManagedDatabase : Type 0 where
  pub id : ℕ
  pub node_id : Option ℕ
  pub name : Text
  pub engine : DatabaseEngine
  pub version : Text
  pub status : DatabaseStatus
  pub port : Option ℕ
  pub container_name : Option Text
  pub container_id : Option Text
  pub username : Text
  pub password_cipher : Option Text
  pub storage_mb : ℕ
  pub cpu : Text
  pub memory_mb : ℕ
  pub last_backup_at : Option ℕ
  pub deleted : Bool

pub record StorageBucket : Type 0 where
  pub id : ℕ
  pub status : BucketStatus
  pub endpoint : Option Text

pub record ServerlessFunction : Type 0 where
  pub id : ℕ
  pub status : FunctionStatus
  pub url : Option Text

pub record FunctionInvocation : Type 0 where
  pub function_id : ℕ
  pub is_success : Bool
  pub duration_ms : ℕ
  pub status_code : ℕ

pub data DatabaseAction : Type 0 where
  provision stop remove backup : DatabaseAction

pub record DatabaseJob : Type 0 where
  pub database_id : ℕ
  pub action : DatabaseAction

pub record ProvisionSpec : Type 0 where
  pub database_id : ℕ
  pub engine : DatabaseEngine
  pub version : Text
  pub container_name : Text
  pub db_name : Text
  pub username : Text
  pub password : Text
  pub storage_mb : ℕ
  pub cpu : Text
  pub memory_mb : ℕ
  pub port : ℕ
  pub network_name : Text

pub data DatabasePayload : Type 0 where
  provision_database : ProvisionSpec → DatabasePayload
  stop_database : (database_id : ℕ) (container_name : Text) → DatabasePayload
  remove_database :
      (database_id : ℕ) (container_name : Text) (remove_volume : Bool) → DatabasePayload
  backup_database :
      (database_id : ℕ) (container_name : Text) (engine : DatabaseEngine) → DatabasePayload

pub record DatabaseCommand : Type 0 where
  pub node_id : ℕ
  pub app_id : ℕ
  pub timeout_ms : Option ℕ
  pub payload : DatabasePayload

pub record DatabaseStore : Type 0 where
  pub databases : List ManagedDatabase
  pub nodes : List ℕ
  pub jobs : List DatabaseJob
  pub commands : List DatabaseCommand
