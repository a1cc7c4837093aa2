-- ===== src/Tests.antt =====
-- Runs of the modelled scripts at concrete inputs.
mod Clock
mod RecipientPage
mod SecretView
mod CreateForm
mod CreatePage
mod Drawer
mod LinkPage
mod Shell
mod Administration
mod SettingsPages
mod Exchanges
mod Scripts
mod LinkTogether
mod DrawerScript
mod ClockScript
