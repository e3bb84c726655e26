-- ===== src/Dialog.antt =====
-- The dialogs of web/src/features: state machines, and what they show. A handler is a function on the state; a shown
-- dialog is a record of its texts and buttons, without icons and classes. React, the dialog's primitive and the query
-- library are not modelled: a mutation is pending from its start to the event that brings its answer.
pub mod Shown
pub mod Upload
pub mod IssueKey
pub mod Tenant
pub mod Confirm
pub mod Config
