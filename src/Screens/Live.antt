-- ===== src/Screens/Live.antt =====
-- ui_screens.cpp with app_state.cpp: presses of the controls of each screen.
use beer_tab.App.{App}
